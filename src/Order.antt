-- ===== src/Order.antt =====
-- include/Order.h and include/TradeRecord.h: the data, with the orderings that Order.h declares.
-- A time point is the number of clock ticks since the epoch.
use match_engine.Prelude.{ℕ, Bool, ◌&&◌, ◌||◌, String}
use match_engine.Prelude.Int.{ℤ, ltb_ℤ}
use match_engine.Double.{Double}

pub data OrderSide : Type 0 where
  buy sell unknown : OrderSide

pub data OrderType : Type 0 where
  limit market unknown : OrderType

pub data OrderStatus : Type 0 where
  initial matching partially_filled fully_filled canceled partially_filled_canceled unknown :
      OrderStatus

pub record Order (D : Type 0) : Type 0 where
  pub order_id : ℕ
  pub user_id : ℕ
  pub price : D
  pub quantity : D
  pub fee_rate : D
  pub order_side : OrderSide
  pub order_type : OrderType
  pub status : OrderStatus
  pub create_time : ℤ
  pub update_time : ℤ
  pub filled_quantity : D

pub record TradeRecord (D : Type 0) : Type 0 where
  pub trade_id : ℕ
  pub buyer_user_id : ℕ
  pub seller_user_id : ℕ
  pub buyer_order_id : ℕ
  pub seller_order_id : ℕ
  pub order_type : String
  pub trade_price : D
  pub trade_quantity : D
  pub buyer_fee : D
  pub seller_fee : D
  pub trade_time : ℤ

module _ {D : Type 0} ⦃d : Double D⦄ where
  -- `Order::operator<`: a lower price, or the same price and a later time.
  unfoldable pub order_lt : Order D → Order D → Bool
  order_lt a b = d.lt a.price b.price || d.eq a.price b.price && ltb_ℤ b.create_time a.create_time

  -- `Order::operator>`.
  unfoldable pub order_gt : Order D → Order D → Bool
  order_gt a b = d.lt b.price a.price || d.eq a.price b.price && ltb_ℤ a.create_time b.create_time
