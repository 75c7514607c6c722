-- ===== src/Startup/Serve.antt =====
-- main.cpp: `startHeal` and `start_websocket_server`, with the constructors, `start` and the destructors of
-- src/HealthCheckServer.cpp and src/WebSocketServer.cpp. Parameters say what connecting the socket
-- throws, what the calls of websocketpp throw up to `listen` and from `start_accept` on (for the health
-- check server, what serving throws), and what `stop_listening` does. The tests of `running_` read what
-- was written last, as in Threads.antt.
use match_engine.Prelude.{Bool, true, false, String, ℕ, Option, none, some, List, ◌∷◌}
use match_engine.Prelude.Result.{Result, ok, err, Error}
use match_engine.Servers.Health.{HealthCheckServer, receive_order_book}
use match_engine.Servers.Socket.{WebSocketServer, received, handle_event, new_server}
use match_engine.Threads.{
  Phase, absent, testing, receiving, handling, ended, Threads, Action, call_start, call_stop,
  act_all, new_threads,
}

-- How one of the two functions ends. `terminated` is `std::terminate`, which ends the process.
pub data Ending : Type 0 where
  returned : Ending
  threw : Error → Ending
  terminated : Ending

unfoldable pub ending : Result (Unit {0}) → Ending
ending (ok u) = returned
ending (err e) = threw e

-- The destructor of `std::thread`: one that can be joined ends the process.
unfoldable pub destroy_thread : {M : Type 0} → Phase M → Ending → Ending
destroy_thread absent e = e
destroy_thread testing e = terminated
destroy_thread receiving e = terminated
destroy_thread (handling m) e = terminated
destroy_thread ended e = terminated

-- The assignments to `latestOrderBook_` and, for the other server, what is sent.
unfoldable pub keep_book : String → HealthCheckServer → HealthCheckServer
unfolding receive_order_book
keep_book text s = receive_order_book (some text) s

unfoldable pub send_book : ((fails : ℕ → Bool) × String) → WebSocketServer → WebSocketServer
unfolding handle_event
send_book (fails, text) s = handle_event (received fails text) s

-- `start` on a new object: its thread, and the actions of the two threads while the server serves.
unfoldable pub serve : {S M : Type 0} → (M → S → S) → S → List (Action M) → Option (Threads S M)
serve handle state actions = act_all handle (call_start ∷ actions) (new_threads state)

-- `actions` are those of the two threads while the server serves. The class has no destructor of its
-- own. The result is `none` where the actions are not possible.
unfoldable pub start_heal :
    (connects serves : Result (Unit {0})) → (actions : List (Action String)) → Option Ending
unfolding keep_book serve ending destroy_thread
start_heal (err e) serves actions = some (threw e)
start_heal (ok u) serves actions =
    elim (serve keep_book (record { latest_order_book = "" }) actions) [
      | none ↦ none
      | some t ↦ some (destroy_thread t.phase (ending serves))
    ]

-- An exception of `stop_listening` would leave the destructor: it ends the process.
unfoldable pub close : Result (Unit {0}) → Ending → Ending
close (ok u) e = e
close (err x) e = terminated

-- The destructor calls `stop`, where `actions'` happen. It does not come to an end while `join` waits.
unfoldable pub destroy_server :
    {S M : Type 0} → (closes : Result (Unit {0})) → Ending → Threads S M → Option Ending
unfolding destroy_thread close
destroy_server closes e t = elim t.joining [
  | true ↦ none
  | false ↦ some (destroy_thread t.phase (close closes e))
]

-- What `start` of the other server throws after its thread is made: what the calls up to `listen` throw,
-- or else what `start_accept` and `run` throw.
unfoldable pub serving : (listens runs : Result (Unit {0})) → Result (Unit {0})
serving (err e) runs = err e
serving (ok u) runs = runs

unfoldable pub start_websocket_server :
    (connects listens runs closes : Result (Unit {0}))
    → (actions actions' : List (Action ((fails : ℕ → Bool) × String))) → Option Ending
unfolding send_book serve ending serving destroy_server
start_websocket_server (err e) listens runs closes actions actions' = some (threw e)
start_websocket_server (ok u) listens runs closes actions actions' =
    elim (serve send_book new_server actions) [
      | none ↦ none
      | some t ↦ elim (act_all send_book (call_stop ∷ actions') t) [
        | none ↦ none
        | some t' ↦ destroy_server closes (ending (serving listens runs)) t'
      ]
    ]
