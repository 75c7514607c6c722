-- ===== src/Engine/Arrivals.antt =====
-- The loop of Engine/Run.antt against the orders that its messages hold.
use text.Mathlib.Text.{◌==◌}
use match_engine.Prelude.{ℕ, ◌≡◌, refl, inl, inr, List, [], ◌∷◌, Bool-cases, if◌then◌else◌}
use match_engine.Prelude.Result.{ok, err, Result-cases}
use match_engine.Double.{Double}
use match_engine.Order.{Order}
use match_engine.Json.{Json}
use match_engine.Serialization.Times.{Calendar}
use match_engine.Engine.Trade.{Env}
use match_engine.Engine.Process.{Engine, process_order}
use match_engine.Engine.Throttle.{process_orders}
use match_engine.Engine.Run.{Received, nothing, message, failed, decode_order, run_round, run}

module _ (D J : Type 0) ⦃d : Double D⦄ ⦃j : Json J⦄ ⦃c : Calendar⦄ where
  -- The orders of the messages that hold one, in their order.
  abbrev pub arrivals : List (ℕ × Received) → List (ℕ × Order D)
  arrivals [] = []
  arrivals ((now, nothing) ∷ rest) = arrivals rest
  arrivals ((now, failed x) ∷ rest) = arrivals rest
  arrivals ((now, message text) ∷ rest) =
      let later = arrivals rest in
      if text == ""
      then later
      else elim (decode_order D J text) [ err x ↦ later | ok order ↦ (now, order) ∷ later ]

  -- The loop handles the orders of the messages that hold one, one after the other. No message, an
  -- exception of `recv`, an empty message and a text that holds no order change nothing, and the loop
  -- goes on behind them.
  pub run-process_orders :
      (env : Env) (received : List (ℕ × Received)) (e : Engine D)
      → run D J env received e ≡ process_orders env (arrivals received) e
  unfolding run run_round process_orders
  run-process_orders env [] e = refl
  run-process_orders env ((now, nothing) ∷ rest) e = run-process_orders env rest e
  run-process_orders env ((now, failed x) ∷ rest) e = run-process_orders env rest e
  run-process_orders env ((now, message text) ∷ rest) e = elim (Bool-cases (text == "")) [
    | inl b ↦ rw (run, b) (run-process_orders env rest e)
    | inr b ↦ elim (Result-cases (decode_order D J text)) [
      | inl (order, h) ↦
          rw (run, b, h) (run-process_orders env rest (process_order env now order e))
      | inr (x, h) ↦ rw (run, b, h) (run-process_orders env rest e)
    ]
  ]
