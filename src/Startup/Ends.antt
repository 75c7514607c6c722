-- ===== src/Startup/Ends.antt =====
-- How the servers of Startup/Serve.antt end.
use match_engine.Prelude.{
  ◌≡◌, refl, sym, subst, ◌∙◌, ◌⊎◌, inl, inr, Bool, false, String, ℕ, Option, none, some, List, ◌∷◌,
  All, Option-cases,
}
use match_engine.Prelude.Result.{Result, ok, err, Error}
use match_engine.Servers.Health.{HealthCheckServer}
use match_engine.Servers.Socket.{WebSocketServer, new_server}
use match_engine.Threads.{
  Phase, absent, testing, receiving, handling, ended, Threads, Action, call_start, call_stop, stop,
  act_all, act, new_threads,
}
use match_engine.Threads.Stop.{IsInner, way_out, stop_bounds, way_out-IsInner}
use match_engine.Threads.Serving.{IsLooping, started-IsServing}
use match_engine.Startup.Serve.{
  Ending, terminated, ending, destroy_thread, keep_book, send_book, start_heal, close, serving,
  destroy_server, start_websocket_server,
}

looping-destroy_thread :
    {M : Type 0} (phase : Phase M) (e : Ending)
    → IsLooping phase
    → destroy_thread phase e ≡ terminated
unfolding destroy_thread
looping-destroy_thread testing e l = refl
looping-destroy_thread receiving e l = refl
looping-destroy_thread (handling m) e l = refl
looping-destroy_thread absent e l = elim l [ ]
looping-destroy_thread ended e l = elim l [ ]

-- `startHeal` with a socket that is connected does not return, and no exception leaves it: when its
-- server stops serving, the process is ended, since the thread is in its loop and nobody joins it.
pub start_heal_terminates :
    (serves : Result (Unit {0})) (actions : List (Action String)) (x : Ending)
    → All IsInner actions
    → start_heal (ok tt) serves actions ≡ some x
    → x ≡ terminated
unfolding start_heal
start_heal_terminates serves actions x i e =
    let new : Threads HealthCheckServer String = new_threads (record { latest_order_book = "" }) in
    elim (Option-cases (act_all keep_book (call_start ∷ actions) new)) [
      | inl gone ↦
          let stuck : start_heal (ok tt) serves actions ≡ none = rw (start_heal, gone) refl in cc
      | inr (t, served) ↦
          let s =
            started-IsServing keep_book (record { latest_order_book = "" }) actions t i served in
          let over : start_heal (ok tt) serves actions
              ≡ some (destroy_thread t.phase (ending serves)) =
            rw (start_heal, served) refl in
          let same : some x ≡ some (destroy_thread t.phase (ending serves)) = sym e ∙ over in
          let end : x ≡ destroy_thread t.phase (ending serves) = cc in
          end ∙ looping-destroy_thread t.phase (ending serves) s.looping
    ]

abbrev Sent : Type 0
Sent = (fails : ℕ → Bool) × String

call_stop-act_all :
    (t : Threads WebSocketServer Sent) (actions : List (Action Sent))
    → t.joining ≡ false
    → act_all send_book (call_stop ∷ actions) t ≡ act_all send_book actions (stop t)
unfolding act_all act
call_stop-act_all t actions h = rw (act_all, act, h) refl

destroyed :
    (closes : Result (Unit {0})) (e : Ending) (t : Threads WebSocketServer Sent)
    → t.joining ≡ false
    → t.phase ≡ absent
    → destroy_server closes e t ≡ some (close closes e)
unfolding destroy_server destroy_thread
destroyed closes e t h a = rw (destroy_server, h, a) refl

-- How the function ends where its destructor's `stop` has returned: if the calls up to `listen` threw,
-- the process is ended; if not, it ends as serving did, unless `stop_listening` throws.
abbrev pub EndsAs : (listens runs closes : Result (Unit {0})) → Option Ending → Type 0
EndsAs listens runs closes o =
    ((x : Error) × (listens ≡ err x) × (o ≡ some terminated))
    ⊎ ((listens ≡ ok tt) × (o ≡ some (close closes (ending runs))))

closed :
    (listens runs closes : Result (Unit {0}))
    → ((x : Error) → listens ≡ err x → (y : Error) × (closes ≡ err y))
    → EndsAs listens runs closes (some (close closes (ending (serving listens runs))))
unfolding close serving
closed (err x) runs closes h = let (y, fails) = h x refl in inl (x, refl, rw fails refl)
closed (ok u) runs closes h = inr (refl, refl)

module _ (listens runs closes : Result (Unit {0})) (actions : List (Action Sent))
    (t : Threads WebSocketServer Sent) where
  abbrev ends : List (Action Sent) → Option Ending
  ends actions' = start_websocket_server (ok tt) listens runs closes actions actions'

  over :
      (actions' : List (Action Sent)) (u : Threads WebSocketServer Sent)
      → act_all send_book (call_start ∷ actions) (new_threads new_server) ≡ some t
      → act_all send_book (call_stop ∷ actions') t ≡ some u
      → u.joining ≡ false
      → u.phase ≡ absent
      → ends actions' ≡ some (close closes (ending (serving listens runs)))
  unfolding start_websocket_server
  over actions' u served left back gone =
      rw (start_websocket_server, served, left)
        (destroyed closes (ending (serving listens runs)) u back gone)

  -- `start_websocket_server` with a socket that is connected, where `stop_listening` throws if the calls up
  -- to `listen` threw, and the tests of `running_` read what was written last: whatever the threads do
  -- until the server stops serving, and until its destructor's `stop` has returned, the process is ended
  -- if the calls up to `listen` threw; if not, the function ends as serving did, unless `stop_listening`
  -- throws, which ends the process too. A `stop` that returns is possible, with the same end.
  pub start_websocket_server_ends :
      (actions' : List (Action Sent)) (u : Threads WebSocketServer Sent)
      → ((x : Error) → listens ≡ err x → (y : Error) × (closes ≡ err y))
      → All IsInner actions
      → All IsInner actions'
      → act_all send_book (call_start ∷ actions) (new_threads new_server) ≡ some t
      → act_all send_book (call_stop ∷ actions') t ≡ some u
      → u.joining ≡ false
      → EndsAs listens runs closes (ends actions')
        × EndsAs listens runs closes (ends (way_out t.phase))
  start_websocket_server_ends actions' u not_listening i i' served left back =
      let s = started-IsServing send_book new_server actions t i served in
      let stopping = sym (call_stop-act_all t actions' s.waited) ∙ left in
      let (four, one, gone, w, out, back') = stop_bounds send_book t u actions' i' stopping in
      let (four', one', gone', w', out', back'') =
        stop_bounds send_book t w (way_out t.phase) (way_out-IsInner t.phase) out in
      let left' = call_stop-act_all t (way_out t.phase) s.waited ∙ out in
      let end = closed listens runs closes not_listening in
      (
        subst (EndsAs listens runs closes) (sym (over actions' u served left back (gone back))) end,
        subst (EndsAs listens runs closes)
            (sym (over (way_out t.phase) w served left' back' (gone' back'))) end,
      )
