-- ===== src/Threads.antt =====
-- The thread of src/PersistenceProgram.cpp and the thread that calls `start` and `stop`: an interleaving
-- of the two is a list of actions. `running` is a `std::atomic`, so a test reads what was written last.
-- src/HealthCheckServer.cpp, src/WebSocketServer.cpp and src/MatchingEngine.cpp have the same code on a
-- plain `bool`: of them this says something only as far as their test too reads what was written last.
pub mod Stop
pub mod Serving
pub mod Handled
mod Examples
use match_engine.Prelude.{Bool, true, false, Option, none, some, List, [], ◌∷◌, ◌++◌, if◌then◌else◌}

-- Where the thread stands: there is none, or it has been joined; it tests `running`; it waits in
-- `recv`; it has a message to handle; its function has returned.
pub data Phase (M : Type 0) : Type 0 where
  absent testing receiving : Phase M
  handling : M → Phase M
  ended : Phase M

-- `joining` says that a call of `stop` has not returned. `handled` has the messages in the order in
-- which they were handled.
pub record Threads (S M : Type 0) : Type 0 where
  pub state : S
  pub handled : List M
  pub running : Bool
  pub phase : Phase M
  pub joining : Bool

-- The calls of `start` and `stop`; the return of `join`; a test of `running`; what `recv` gives, a
-- message or not (it has thrown, or given nothing); and the end of the loop's body, which is not
-- reached while `reconnectResultClient` goes on.
pub data Action (M : Type 0) : Type 0 where
  call_start call_stop joined test : Action M
  received : M → Action M
  missed done : Action M

-- What the constructors make.
abbrev pub new_threads : {S M : Type 0} → S → Threads S M
new_threads s = record { state = s; handled = []; running = false; phase = absent; joining = false }

module _ {S M : Type 0} where
  -- The assignment of a thread to one that is joinable ends the program.
  unfoldable pub start : Phase M → Threads S M → Option (Threads S M)
  start absent t = some (record t { running = true; phase = testing })
  start testing t = none
  start receiving t = none
  start (handling m) t = none
  start ended t = none

  unfoldable pub stop : Threads S M → Threads S M
  stop t = record t { running = false; joining = true }

  -- Without a thread there is nothing to join.
  unfoldable pub join : Phase M → Threads S M → Option (Threads S M)
  join absent t = some (record t { joining = false })
  join ended t = some (record t { phase = absent; joining = false })
  join testing t = none
  join receiving t = none
  join (handling m) t = none

  -- A round of the loop, where `handle` is what it does with a message.
  unfoldable pub loop_test : Phase M → Threads S M → Option (Threads S M)
  loop_test testing t = some (record t { phase = if t.running then receiving else ended })
  loop_test absent t = none
  loop_test receiving t = none
  loop_test (handling m) t = none
  loop_test ended t = none

  unfoldable pub loop_receive : (next : Phase M) → Phase M → Threads S M → Option (Threads S M)
  loop_receive next receiving t = some (record t { phase = next })
  loop_receive next absent t = none
  loop_receive next testing t = none
  loop_receive next (handling m) t = none
  loop_receive next ended t = none

  unfoldable pub loop_handle : (M → S → S) → Phase M → Threads S M → Option (Threads S M)
  loop_handle handle (handling m) t =
      some (record t { state = handle m t.state; handled = t.handled ++ m ∷ []; phase = testing })
  loop_handle handle absent t = none
  loop_handle handle testing t = none
  loop_handle handle receiving t = none
  loop_handle handle ended t = none

  -- One action, or `none` where it is not possible.
  unfoldable pub act : (M → S → S) → Action M → Threads S M → Option (Threads S M)
  unfolding start stop join loop_test loop_receive loop_handle
  act handle call_start t = if t.joining then none else start t.phase t
  act handle call_stop t = if t.joining then none else some (stop t)
  act handle joined t = if t.joining then join t.phase t else none
  act handle test t = loop_test t.phase t
  act handle (received m) t = loop_receive (handling m) t.phase t
  act handle missed t = loop_receive testing t.phase t
  act handle done t = loop_handle handle t.phase t

  unfoldable pub act_all : (M → S → S) → List (Action M) → Threads S M → Option (Threads S M)
  unfolding act
  act_all handle [] t = some t
  act_all handle (a ∷ rest) t = elim (act handle a t) [
    | none ↦ none
    | some u ↦ act_all handle rest u
  ]
