-- ===== src/Engine/Scenario.antt =====
-- Test data for the engine: an order book over whole numbers, and runs on it.
use match_engine.Prelude.{ℕ, ◌+◌, ◌==◌, ◌≡◌, refl, true, false, [], ◌∷◌, arith, map}
use match_engine.Prelude.Int.{pos}
use match_engine.Double.Whole.{whole, whole_ranked, whole_exact}
use match_engine.Order.{Order, OrderSide, buy, sell, limit, initial}
use match_engine.Engine.Trade.{Env, process_trade}
use match_engine.Engine.Match.{Book, match_level, match_levels, match_buy_orders, match_sell_orders}
use match_engine.Engine.Process.{Engine, is_buy, new_engine, process_order}
use match_engine.Engine.Failing.{Faults, try_level, try_levels, try_order}
use match_engine.Engine.Invariant.{IsBook, IsValid, IsAdmissible}

abbrev pub env : Env
env = record { rand = λ n. n; system_clock = λ n. pos n }

abbrev pub order : OrderSide → (id price quantity : ℕ) → Order ℕ
order side id price quantity = record {
  order_id = id;
  user_id = id + 1000;
  price = price;
  quantity = quantity;
  fee_rate = 2;
  order_side = side;
  order_type = limit;
  status = initial;
  create_time = pos 0;
  update_time = pos 0;
  filled_quantity = 0;
}

abbrev pub asks : Book ℕ
asks =
    (101, (1, order sell 1 101 5) ∷ (3, order sell 3 101 2) ∷ [])
    ∷ (103, (2, order sell 2 103 4) ∷ [])
    ∷ []

abbrev pub bids : Book ℕ
bids = (97, (4, order buy 4 97 3) ∷ []) ∷ (99, (5, order buy 5 99 1) ∷ []) ∷ []

abbrev pub open_engine : Engine ℕ
open_engine = record (new_engine ℕ) { buy_orders = bids; sell_orders = asks }

pub asks-IsBook : IsBook whole_ranked whole_exact false asks
unfolding is_buy
asks-IsBook = ground arith

pub bids-IsBook : IsBook whole_ranked whole_exact true bids
unfolding is_buy
bids-IsBook = ground arith

pub open_engine-IsValid : IsValid whole_ranked whole_exact open_engine
unfolding new_engine
open_engine-IsValid = record { buys = bids-IsBook; sells = asks-IsBook; uncrossed = ground arith }

pub buyer-IsAdmissible : IsAdmissible whole_ranked whole_exact (order buy 9 102 6)
buyer-IsAdmissible = ground arith

pub seller-IsAdmissible : IsAdmissible whole_ranked whole_exact (order sell 8 98 5)
seller-IsAdmissible = ground arith

taker_filled : (match_buy_orders env 0 (order buy 9 102 6) asks).order.filled_quantity ≡ 6
unfolding match_buy_orders match_levels match_level process_trade
taker_filled = refl

best_bid_first : (match_sell_orders env 0 (order sell 8 98 5) bids).order.filled_quantity ≡ 1
unfolding match_sell_orders match_levels match_level process_trade
best_bid_first = refl

rest_of_seller_booked :
    map (λ (price, level). price) (process_order env 0 (order sell 8 98 5) open_engine).sell_orders
    ≡ 98 ∷ 101 ∷ 103 ∷ []
unfolding process_order new_engine match_levels match_level process_trade
rest_of_seller_booked = refl

-- The first send of a trade throws, and so does no other.
abbrev pub broken_first : Faults
broken_first = record {
  trade_fails = λ (n : ℕ). n == 0;
  unmatched_fails = false;
  book_fails = false;
}

abbrev pub no_faults : Faults
no_faults = record { trade_fails = λ n. false; unmatched_fails = false; book_fails = false }

abbrev pub dice : Env
dice = record { rand = λ n. 4; system_clock = λ n. pos n }

lost_trade :
    ((try_order broken_first env 0 (order buy 9 102 6) open_engine).results ≡ [])
    × ((try_order broken_first env 0 (order buy 9 102 6) open_engine).buy_orders ≡ bids)
unfolding try_order try_level try_levels process_trade new_engine
lost_trade = (refl, refl)
