-- ===== src/Engine/Examples.antt =====
-- The engine's theorems at concrete inputs.
use match_engine.Prelude.{ℕ, ◌+◌, ◌*◌, ◌≤◌, ◌<◌, ◌≡◌, arith, List, [], ◌∷◌, All, reverse, length}
use match_engine.Double.Whole.{whole, whole_ranked, whole_exact}
use match_engine.Order.{Order, buy, sell}
use match_engine.Engine.Match.{match_buy_orders, match_sell_orders}
use match_engine.Engine.Process.{new_engine, second, process_order}
use match_engine.Engine.Exact.{remaining}
use match_engine.Engine.Invariant.{IsValid}
use match_engine.Engine.Validity.{process_order-IsValid}
use match_engine.Engine.Messages.{IsTradeOf, IsTradeWith, message_units, traded_units}
use match_engine.Engine.Trading.{
  Rests, match_buy_orders_fill, match_sell_orders_fill, match_buy_orders_trades,
  match_sell_orders_trades,
}
use match_engine.Engine.Priority.{
  queued, flatten, sweep, match_buy_orders-sweep, match_sell_orders-sweep,
}
use match_engine.Engine.Throttle.{process_orders, process_orders_rate}
use match_engine.Engine.Sides.{above}
use match_engine.Engine.Scenario.{
  env, order, asks, bids, open_engine, asks-IsBook, bids-IsBook, open_engine-IsValid,
  buyer-IsAdmissible, seller-IsAdmissible,
}

process_order-IsValid_example :
    IsValid whole_ranked whole_exact (process_order env 0 (order buy 9 102 6) open_engine)
process_order-IsValid_example =
    process_order-IsValid whole_ranked whole_exact env 0 (order buy 9 102 6) open_engine
      buyer-IsAdmissible open_engine-IsValid

match_buy_orders_fill_example :
    remaining whole_exact (match_buy_orders env 0 (order buy 9 102 6) asks).order ≡ 0
match_buy_orders_fill_example =
    (match_buy_orders_fill whole_ranked whole_exact env 0 (order buy 9 102 6) asks
      buyer-IsAdmissible asks-IsBook).0

match_sell_orders_fill_example :
    traded_units whole_exact (match_sell_orders env 0 (order sell 8 98 5) bids).sent ≡ 1
match_sell_orders_fill_example =
    (match_sell_orders_fill whole_ranked whole_exact env 0 (order sell 8 98 5) bids
      seller-IsAdmissible bids-IsBook).2

match_buy_orders_trades_example :
    All
      (IsTradeOf (order buy 9 102 6) (λ p. p ≤ 102))
      (match_buy_orders env 0 (order buy 9 102 6) asks).sent
    × All (IsTradeWith (Rests asks)) (match_buy_orders env 0 (order buy 9 102 6) asks).sent
    × All
        (λ m. 0 < message_units whole_exact m)
        (match_buy_orders env 0 (order buy 9 102 6) asks).sent
match_buy_orders_trades_example =
    match_buy_orders_trades whole_ranked whole_exact env 0 (order buy 9 102 6) asks
      buyer-IsAdmissible asks-IsBook

match_sell_orders_trades_example :
    All
      (IsTradeOf (order sell 8 98 5) (λ p. 98 ≤ p))
      (match_sell_orders env 0 (order sell 8 98 5) bids).sent
    × All (IsTradeWith (Rests bids)) (match_sell_orders env 0 (order sell 8 98 5) bids).sent
    × All
        (λ m. 0 < message_units whole_exact m)
        (match_sell_orders env 0 (order sell 8 98 5) bids).sent
match_sell_orders_trades_example =
    match_sell_orders_trades whole_ranked whole_exact env 0 (order sell 8 98 5) bids
      seller-IsAdmissible bids-IsBook

match_buy_orders-sweep_example :
    queued (match_buy_orders env 0 (order buy 9 102 6) asks)
    ≡ sweep env whole.lt 0 (order buy 9 102 6) (flatten asks)
match_buy_orders-sweep_example =
    match_buy_orders-sweep env 0 (order buy 9 102 6) asks ((λ e. cc), ((λ e. cc), tt))

match_sell_orders-sweep_example :
    let m = match_sell_orders env 0 (order sell 8 98 5) bids in
    queued (record { order = m.order; left = reverse m.left; sent = m.sent })
    ≡ sweep env above 0 (order sell 8 98 5) (flatten (reverse bids))
match_sell_orders-sweep_example =
    match_sell_orders-sweep env 0 (order sell 8 98 5) bids ((λ e. cc), ((λ e. cc), tt))

abbrev arrivals : List (ℕ × Order ℕ)
arrivals = (400_000_000, order buy 9 102 6) ∷ (3_000_000_000, order sell 8 98 5) ∷ []

process_orders_rate_example :
    second * length (process_orders env arrivals open_engine).published + 0
    ≤ second * 0 + 3_500_000_000
unfolding new_engine
process_orders_rate_example =
    process_orders_rate env arrivals open_engine 3_500_000_000
      (omega arith, (omega arith, omega arith))
