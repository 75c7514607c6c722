-- ===== src/Engine/FailingRun.antt =====
-- src/MatchingEngine.cpp: the loop in `run` where sends throw, as in Engine/Failing.antt. It catches what a
-- round throws, and goes on with what the round has left.
use text.Mathlib.Text.{◌==◌}
use match_engine.Prelude.{ℕ, List, [], ◌∷◌, if◌then◌else◌}
use match_engine.Prelude.Result.{ok, err}
use match_engine.Double.{Double}
use match_engine.Json.{Json}
use match_engine.Serialization.Times.{Calendar}
use match_engine.Engine.Trade.{Env}
use match_engine.Engine.Process.{Engine}
use match_engine.Engine.Failing.{Faults, try_order}
use match_engine.Engine.Run.{Received, nothing, message, failed, decode_order}

-- What `recv` gives, with the reading of the steady clock, and which sends of the round throw.
pub record Arrival : Type 0 where
  pub now : ℕ
  pub faults : Faults
  pub received : Received

module _ (D J : Type 0) ⦃d : Double D⦄ ⦃j : Json J⦄ ⦃c : Calendar⦄ where
  unfoldable pub try_run_round : Env → ℕ → Faults → Received → Engine D → Engine D
  unfolding decode_order try_order
  try_run_round env now faults nothing e = e
  try_run_round env now faults (failed x) e = e
  try_run_round env now faults (message text) e =
      if text == ""
      then e
      else elim (decode_order D J text) [ err x ↦ e | ok order ↦ try_order faults env now order e ]

  unfoldable pub try_run : Env → List Arrival → Engine D → Engine D
  unfolding try_run_round
  try_run env [] e = e
  try_run env (a ∷ rest) e = try_run env rest (try_run_round env a.now a.faults a.received e)
