-- ===== src/Startup/Matching.antt =====
-- main.cpp: `startMessageQueueServersAndMatchingEngine`, with the thread that runs `MatchingEngine::start`.
use match_engine.Prelude.{◌≡◌, refl, ◌∙◌, Option, none, some, List, [], ◌∷◌, ◌++◌, All}
use match_engine.Prelude.Result.{Result, ok, err}
use match_engine.Double.{Double}
use match_engine.Json.{Json}
use match_engine.Serialization.Times.{Calendar}
use match_engine.Engine.Trade.{Env}
use match_engine.Engine.Process.{Engine, new_engine}
use match_engine.Engine.FailingRun.{Arrival, try_run_round, try_run}
use match_engine.Threads.{
  Phase, absent, testing, receiving, handling, ended, Threads, Action, call_start, act_all,
  new_threads,
}
use match_engine.Threads.Stop.{IsInner}
use match_engine.Threads.Serving.{IsLooping, started-IsServing}
use match_engine.Threads.Handled.{messages_of, in_hand, handle_all, act_all-handled}
use match_engine.Startup.Serve.{Ending, returned, threw}

-- The exception of the first `bind` that throws one.
unfoldable pub bind_all : List (Result (Unit {0})) → Result (Unit {0})
bind_all [] = ok tt
bind_all (err e ∷ rest) = err e
bind_all (ok u ∷ rest) = bind_all rest

-- `join` returns when the thread has ended.
unfoldable pub joined_ending : {M : Type 0} → Phase M → Option Ending
joined_ending absent = none
joined_ending testing = none
joined_ending receiving = none
joined_ending (handling m) = none
joined_ending ended = some returned

module _ (D J : Type 0) ⦃d : Double D⦄ ⦃j : Json J⦄ ⦃c : Calendar⦄ where
  -- A round of the loop on what `recv` gives, where the sends may throw.
  unfoldable pub engine_round : Env → Arrival → Engine D → Engine D
  engine_round env a e = try_run_round D J env a.now a.faults a.received e

  -- The engine after some actions of its thread.
  unfoldable pub start_engine : Env → List (Action Arrival) → Option (Threads (Engine D) Arrival)
  unfolding engine_round
  start_engine env actions =
      act_all (engine_round env) (call_start ∷ actions) (new_threads (new_engine D))

  -- How the function ends, or `none` where it has not after these actions.
  unfoldable pub start_message_queue_servers_and_matching_engine :
      Env → (binds : List (Result (Unit {0}))) → List (Action Arrival) → Option Ending
  unfolding bind_all joined_ending start_engine
  start_message_queue_servers_and_matching_engine env binds actions = elim (bind_all binds) [
    | err e ↦ some (threw e)
    | ok u ↦ elim (start_engine env actions) [ none ↦ none | some t ↦ joined_ending t.phase ]
  ]

  engine_round-try_run :
      (env : Env) (list : List Arrival) (e : Engine D)
      → handle_all (engine_round env) list e ≡ try_run D J env list e
  unfolding try_run engine_round
  engine_round-try_run env [] e = refl
  engine_round-try_run env (a ∷ rest) e =
      engine_round-try_run env rest (try_run_round D J env a.now a.faults a.received e)

  looping-joined_ending :
      {M : Type 0} (phase : Phase M) → IsLooping phase → joined_ending phase ≡ none
  unfolding joined_ending
  looping-joined_ending testing l = refl
  looping-joined_ending receiving l = refl
  looping-joined_ending (handling m) l = refl
  looping-joined_ending absent l = elim l [ ]
  looping-joined_ending ended l = elim l [ ]

  -- With sockets that are bound, and as nothing calls `stop`, the function does not end, whatever its thread
  -- does and whichever sends of the engine throw; and at any time the engine is what `try_run` makes of an
  -- empty one on the messages handled so far, which are those received, in their order, but for the one
  -- in hand.
  pub matching_engine_at_work :
      (env : Env) (binds : List (Result (Unit {0}))) (actions : List (Action Arrival))
      (t : Threads (Engine D) Arrival)
      → bind_all binds ≡ ok tt
      → All IsInner actions
      → start_engine env actions ≡ some t
      → (start_message_queue_servers_and_matching_engine env binds actions ≡ none)
        × (t.state ≡ try_run D J env t.handled (new_engine D))
        × (messages_of actions ≡ t.handled ++ in_hand t.phase)
  unfolding start_message_queue_servers_and_matching_engine start_engine
  matching_engine_at_work env binds actions t b i e =
      let (arrived, state) =
        act_all-handled (engine_round env) (new_engine D) (call_start ∷ actions) t e in
      let s = started-IsServing (engine_round env) (new_engine D) actions t i e in
      (
        rw (start_message_queue_servers_and_matching_engine, b, e)
            (looping-joined_ending t.phase s.looping),
        state ∙ engine_round-try_run env t.handled (new_engine D),
        arrived,
      )
