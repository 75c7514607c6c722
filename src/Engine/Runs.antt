-- ===== src/Engine/Runs.antt =====
-- The theorems on runs of the engine at concrete inputs.
use match_engine.Prelude.{ℕ, ◌+◌, ◌*◌, ◌≡◌, List, [], ◌∷◌, arith, All}
use match_engine.Double.Whole.{whole, whole_ranked, whole_exact}
use match_engine.Order.{Order, buy, sell}
use match_engine.Json.Coded.{coded}
use match_engine.Serialization.Scenario.{east}
use match_engine.Engine.Process.{new_engine}
use match_engine.Engine.Sweep.{open_book}
use match_engine.Engine.Messages.{traded_units}
use match_engine.Engine.Invariant.{IsValid, IsAdmissible}
use match_engine.Engine.Throttle.{process_orders}
use match_engine.Engine.Totals.{ordered, Distinct, process_orders-IsValid}
use match_engine.Engine.Scenario.{env, order}

abbrev three_orders : List (ℕ × Order ℕ)
three_orders = (0, order sell 1 101 5) ∷ (1, order buy 9 102 6) ∷ (2, order sell 8 98 3) ∷ []

three-IsAdmissible : All (λ (now, o). IsAdmissible whole_ranked whole_exact o) three_orders
three-IsAdmissible = ground arith

three-Distinct : Distinct three_orders
three-Distinct = ground arith

process_orders-IsValid_example :
    let e = process_orders env three_orders (new_engine ℕ) in
    IsValid whole_ranked whole_exact e
    × (ordered whole_exact three_orders
        ≡ open_book whole_exact e.buy_orders
          + open_book whole_exact e.sell_orders
          + 2 * traded_units whole_exact e.results)
process_orders-IsValid_example =
    process_orders-IsValid whole_ranked whole_exact env three_orders three-IsAdmissible
      three-Distinct
