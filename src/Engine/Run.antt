-- ===== src/Engine/Run.antt =====
-- src/MatchingEngine.cpp: one round of the loop in `run`. Every exception is caught there. `now` is the
-- reading of the steady clock, if the round comes to `publishOrderBook`.
use text.Mathlib.Text.{◌==◌}
use match_engine.Prelude.{ℕ, String, List, [], ◌∷◌, if◌then◌else◌}
use match_engine.Prelude.Result.{Result, ok, err, ◌>>=◌, Error}
use match_engine.Double.{Double}
use match_engine.Order.{Order}
use match_engine.Json.{Json}
use match_engine.Serialization.Times.{Calendar}
use match_engine.Serialization.Orders.{string_at, deserialize_message, deserialize_order}
use match_engine.Engine.Trade.{Env}
use match_engine.Engine.Process.{Engine, process_order}

-- What `recv` gives: no message, a message, or an exception.
pub data Received : Type 0 where
  nothing : Received
  message : String → Received
  failed : Error → Received

module _ (D J : Type 0) ⦃d : Double D⦄ ⦃j : Json J⦄ ⦃c : Calendar⦄ where
  -- The order in a message: an object in an object, the inner one as a text.
  unfoldable pub decode_order : String → Result (Order D)
  decode_order text = do
    outer ← deserialize_message {J = J} text
    order_text ← string_at "order" outer
    root ← deserialize_message {J = J} order_text
    deserialize_order root

  unfoldable pub run_round : Env → ℕ → Received → Engine D → Engine D
  unfolding decode_order
  run_round env now nothing e = e
  run_round env now (failed x) e = e
  run_round env now (message text) e =
      if text == ""
      then e
      else elim (decode_order text) [ err x ↦ e | ok order ↦ process_order env now order e ]

  -- The loop, over what `recv` gives, each with the reading of the steady clock.
  unfoldable pub run : Env → List (ℕ × Received) → Engine D → Engine D
  unfolding run_round
  run env [] e = e
  run env ((now, received) ∷ rest) e = run env rest (run_round env now received e)
