-- ===== src/Engine/Cases.antt =====
-- The theorems on messages and on failing sends at concrete inputs.
use match_engine.Engine.Resent.{IsUnmoved, process_order-IsResting}
use match_engine.Prelude.{ℕ, [], ◌∷◌, ◌≡◌, refl, arith, List, ◌++◌}
use match_engine.Double.Whole.{whole, whole_ranked, whole_exact}
use match_engine.Order.{Order, buy, sell}
use match_engine.Engine.Exact.{remaining}
use match_engine.Engine.Invariant.{IsAdmissible}
use match_engine.Engine.Emptied.{IsTrade, process_order-try_order}
use match_engine.Engine.Trade.{Message}
use match_engine.Engine.Process.{is_buy, new_engine, process_order}
use match_engine.Engine.Failing.{try_order}
use match_engine.Engine.Reports.{IsReport, Accepts, process_order-IsReport}
use match_engine.Engine.Unsent.{loop_throws, IsCosted, try_order-IsCosted}
use match_engine.Engine.Scenario.{
  env, order, open_engine, open_engine-IsValid, buyer-IsAdmissible, seller-IsAdmissible,
  broken_first,
}

process_order-IsReport_example :
    (messages : List (Message ℕ)) × ((process_order env 0 (order sell 8 98 5) open_engine).results
      ≡ open_engine.results ++ messages)
    × IsReport whole_exact
        (Accepts whole_ranked whole_exact (is_buy sell) 98)
        (order sell 8 98 5)
        messages
process_order-IsReport_example =
    process_order-IsReport whole_ranked whole_exact env 0 (order sell 8 98 5) open_engine
      seller-IsAdmissible refl open_engine-IsValid

try_order-IsCosted_example :
    IsCosted whole_exact
      (is_buy buy)
      (loop_throws broken_first env (order buy 9 102 6) open_engine)
      open_engine
      (try_order broken_first env 0 (order buy 9 102 6) open_engine)
try_order-IsCosted_example =
    try_order-IsCosted whole_ranked whole_exact broken_first env 0 (order buy 9 102 6) open_engine
      buyer-IsAdmissible open_engine-IsValid

-- The ask with the id 3 comes again.
process_order-IsResting_example :
    IsUnmoved
      (order sell 3 101 2)
      open_engine
      (process_order env 0 (order sell 3 101 2) open_engine)
unfolding is_buy
process_order-IsResting_example =
    process_order-IsResting whole_ranked whole_exact env 0 (order sell 3 101 2) open_engine
      open_engine-IsValid
      ([], (103, (2, order sell 2 103 4) ∷ []) ∷ [], 101, (1, order sell 1 101 5) ∷ [], [], refl)

next_buyer-IsAdmissible : IsAdmissible whole_ranked whole_exact (order buy 10 101 3)
next_buyer-IsAdmissible = ground arith

process_order-try_order_example :
    let lost = try_order broken_first env 0 (order buy 9 102 6) open_engine in
    (emptied : Order ℕ) × (lost.sell_orders
      ≡ (101, (1, emptied) ∷ (3, order sell 3 101 2) ∷ [])
        ∷ (103, (2, order sell 2 103 4) ∷ [])
        ∷ [])
    × (remaining whole_exact emptied ≡ 0)
    × (lost.results ≡ open_engine.results)
    × (m : Message ℕ) × (messages : List (Message ℕ)) × (q : ℕ) × ((process_order env 0
          (order buy 10 101 3)
          lost).results
        ≡ lost.results ++ m ∷ messages)
    × IsTrade (order buy 10 101 3) emptied q m
    × (q ≡ 0)
unfolding is_buy new_engine
process_order-try_order_example =
    process_order-try_order whole_ranked whole_exact broken_first env 0 0 (order buy 9 102 6)
      (order buy 10 101 3) open_engine 101 1 (order sell 1 101 5) ((3, order sell 3 101 2) ∷ [])
      ((103, (2, order sell 2 103 4) ∷ []) ∷ []) buyer-IsAdmissible next_buyer-IsAdmissible
      open_engine-IsValid refl refl refl refl refl refl (omega arith)
