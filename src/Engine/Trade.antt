-- ===== src/Engine/Trade.antt =====
-- src/MatchingEngine.cpp: one trade between the order that is processed and a resting order, and the
-- messages that go to the result socket. `rand()` and the system clock are read once for each trade;
-- their values are a parameter, indexed by the number of trades made before.
use match_engine.Prelude.{ℕ, String}
use match_engine.Prelude.Int.{ℤ}
use match_engine.Double.{Double, min_of}
use match_engine.Order.{Order, TradeRecord}
use match_engine.Serialization.Enums.{order_side_to_string}

pub record Env : Type 0 where
  pub rand : ℕ → ℕ
  pub system_clock : ℕ → ℤ

-- What the engine sends to the result socket, before it is written as JSON.
pub data Message (D : Type 0) : Type 0 where
  unmatched_order : Order D → Message D
  trade : (buy_order sell_order : Order D) → TradeRecord D → Message D

-- What `processTrade` leaves in its two arguments, and the message that it sends.
pub record Traded (D : Type 0) : Type 0 where
  pub order : Order D
  pub opposite : Order D
  pub message : Message D

module _ {D : Type 0} ⦃d : Double D⦄ where
  unfoldable pub round_to_precision : D → ℕ → D
  round_to_precision value precision =
      let factor = d.ten_to precision in d.div (d.round (d.mul value factor)) factor

  unfoldable pub create_trade_record :
      Env → ℕ → Order D → Order D → (trade_quantity trade_price : D) → String → TradeRecord D
  create_trade_record env n buy_order sell_order trade_quantity trade_price order_type = record {
    trade_id = env.rand n;
    buyer_user_id = buy_order.user_id;
    seller_user_id = sell_order.user_id;
    buyer_order_id = buy_order.order_id;
    seller_order_id = sell_order.order_id;
    order_type = order_type;
    trade_price = trade_price;
    trade_quantity = trade_quantity;
    buyer_fee = round_to_precision (d.mul (d.mul buy_order.fee_rate trade_quantity) trade_price) 8;
    seller_fee =
        round_to_precision (d.mul (d.mul sell_order.fee_rate trade_quantity) trade_price) 8;
    trade_time = env.system_clock n;
  }

  unfoldable pub trade_quantity_of : Order D → Order D → D
  unfolding min_of
  trade_quantity_of order opposite =
      min_of (d.sub order.quantity order.filled_quantity)
        (d.sub opposite.quantity opposite.filled_quantity)

  unfoldable pub fill : D → Order D → Order D
  fill q order = record order { filled_quantity = d.add order.filled_quantity q }

  unfoldable pub process_trade : Env → ℕ → Order D → Order D → Traded D
  unfolding trade_quantity_of fill create_trade_record round_to_precision order_side_to_string
  process_trade env n order opposite =
      let q = trade_quantity_of order opposite in
      let order' = fill q order in
      let opposite' = fill q opposite in
      let record_of_trade =
        create_trade_record env n order' opposite' q opposite.price
          (order_side_to_string order.order_side) in
      record {
        order = order';
        opposite = opposite';
        message = trade order' opposite' record_of_trade;
      }
