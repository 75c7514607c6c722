-- ===== src/Engine/LossyRun.antt =====
-- Runs of Engine/FailingRun.antt: what the books and the messages hold, whatever arrives and whatever sends
-- throw.
use text.Mathlib.Text.{◌==◌}
use match_engine.Prelude.{
  ℕ, ◌+◌, ◌*◌, ◌≤◌, ◌≡◌, refl, subst, inl, inr, List, [], ◌∷◌, arith, All, Bool-cases,
}
use match_engine.Prelude.Result.{Result-cases}
use match_engine.Double.{Double, IsExact}
use match_engine.Order.{Order}
use match_engine.Json.{Json}
use match_engine.Serialization.Times.{Calendar}
use match_engine.Engine.Trade.{Env}
use match_engine.Engine.Process.{Engine, new_engine}
use match_engine.Engine.Exact.{IsLive}
use match_engine.Engine.Sweep.{open_book}
use match_engine.Engine.Messages.{traded_units}
use match_engine.Engine.Units.{accounted}
use match_engine.Engine.Totals.{ordered}
use match_engine.Engine.Run.{Received, nothing, message, failed, decode_order}
use match_engine.Engine.Arrivals.{arrivals}
use match_engine.Engine.Failing.{Faults, try_order}
use match_engine.Engine.FailingRun.{Arrival, try_run_round, try_run}
use match_engine.Engine.Lossy.{AllLiveEngine, try_order_bounds}

-- What is received, with the readings of the clock.
abbrev pub heard : List Arrival → List (ℕ × Received)
heard [] = []
heard (a ∷ rest) = (a.now, a.received) ∷ heard rest

module _ {D : Type 0} (J : Type 0) ⦃d : Double D⦄ ⦃j : Json J⦄ ⦃c : Calendar⦄ (x : IsExact D) where
  abbrev pub AllLiveOrders : List (ℕ × Order D) → Type 0
  AllLiveOrders = All λ (now, o). IsLive x o

  -- A round from `e` to `e'`, where `all` are the orders still to come before it, and `later` behind it.
  abbrev IsStep : (all later : List (ℕ × Order D)) → (e e' : Engine D) → Type 0
  IsStep all later e e' =
      AllLiveEngine x e'
      × AllLiveOrders later
      × (accounted x e' + ordered x later ≤ accounted x e + ordered x all)

  unhandled :
      (all later : List (ℕ × Order D)) (e e' : Engine D)
      → all ≡ later
      → e' ≡ e
      → AllLiveOrders all
      → AllLiveEngine x e
      → IsStep all later e e'
  unhandled all later e e' p q h v = rw (p, q) (v, subst AllLiveOrders p h, omega arith)

  handled :
      (faults : Faults) (env : Env) (now : ℕ) (order : Order D) (all later : List (ℕ × Order D))
      (e e' : Engine D)
      → all ≡ (now, order) ∷ later
      → e' ≡ try_order faults env now order e
      → AllLiveOrders all
      → AllLiveEngine x e
      → IsStep all later e e'
  handled faults env now order all later e e' p q h v =
      let (live, lives) = subst AllLiveOrders p h in
      let (v', sum) = try_order_bounds x faults env now order e live v in
      rw (p, q) (v', lives, omega (arith, sum))

  try_run_round-IsStep :
      (env : Env) (now : ℕ) (faults : Faults) (received : Received) (rest : List (ℕ × Received))
      (e : Engine D)
      → AllLiveOrders (arrivals D J ((now, received) ∷ rest))
      → AllLiveEngine x e
      → IsStep
          (arrivals D J ((now, received) ∷ rest))
          (arrivals D J rest)
          e
          (try_run_round D J env now faults received e)
  unfolding try_run_round
  try_run_round-IsStep env now faults nothing rest e h v = (v, h, omega arith)
  try_run_round-IsStep env now faults (failed y) rest e h v = (v, h, omega arith)
  try_run_round-IsStep env now faults (message text) rest e h v =
      let all = arrivals D J ((now, message text) ∷ rest) in
      let later = arrivals D J rest in
      let e' = try_run_round D J env now faults (message text) e in
      elim (Bool-cases (text == "")) [
        | inl b ↦ unhandled all later e e' (rw b refl) (rw (try_run_round, b) refl) h v
        | inr b ↦ elim (Result-cases (decode_order D J text)) [
          | inl (order, r) ↦
              handled faults env now order all later e e' (rw (b, r) refl)
                (rw (try_run_round, b, r) refl) h v
          | inr (y, r) ↦
              unhandled all later e e' (rw (b, r) refl) (rw (try_run_round, b, r) refl) h v
        ]
      ]

  try_run-IsStep :
      (env : Env) (list : List Arrival) (e : Engine D)
      → AllLiveOrders (arrivals D J (heard list))
      → AllLiveEngine x e
      → IsStep (arrivals D J (heard list)) [] e (try_run D J env list e)
  unfolding try_run
  try_run-IsStep env [] e h v = (v, h, omega arith)
  try_run-IsStep env (a ∷ rest) e h v =
      let (v', h', sum) = try_run_round-IsStep env a.now a.faults a.received (heard rest) e h v in
      let e' = try_run_round D J env a.now a.faults a.received e in
      let (v'', none_left, sum') = try_run-IsStep env rest e' h' v' in
      (v'', none_left, omega (arith, sum, sum'))

  -- However a run goes and whichever sends throw: if every order that arrives has exact quantities and is not
  -- filled by more than it asks for, no order in the books is filled by more than it asks for, and the units open in the books and twice those of
  -- the trades that were sent are no more than the orders had left.
  pub try_run_bounds :
      (env : Env) (list : List Arrival)
      → AllLiveOrders (arrivals D J (heard list))
      → let e = try_run D J env list (new_engine D) in
        AllLiveEngine x e
        × (open_book x e.buy_orders + open_book x e.sell_orders + 2 * traded_units x e.results
            ≤ ordered x (arrivals D J (heard list)))
  unfolding new_engine
  try_run_bounds env list h =
      let (v, _, sum) = try_run-IsStep env list (new_engine D) h (tt, tt) in (v, omega (arith, sum))
