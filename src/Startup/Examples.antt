-- ===== src/Startup/Examples.antt =====
-- The theorems on the start at concrete inputs.
use match_engine.Prelude.{
  ◌++◌, ℕ, Bool, true, false, String, List, ◌≡◌, refl, ◌⊎◌, none, some, [], ◌∷◌,
}
use match_engine.Prelude.Result.{Result, ok, err, Error, std_error}
use match_engine.Database.Pool.{Pool, new_pool}
use match_engine.Database.Scenario.{config, server, running}
use match_engine.Startup.Parts.{refused, pool_size, start_persistence_program}
use match_engine.Startup.Starts.{IsThread, start_persistence_program_cases}
use match_engine.Servers.Socket.{WebSocketServer, handle_event, send_to_all, new_server}
use match_engine.Threads.{
  Threads, Action, call_start, call_stop, received, done, test, joined, absent, receiving,
  new_threads, act_all, act, start, stop, join, loop_test, loop_receive, loop_handle,
}
use match_engine.Threads.Stop.{way_out}
use match_engine.Startup.Serve.{
  Ending, terminated, start_heal, send_book, destroy_thread, start_websocket_server,
}
use match_engine.Double.Whole.{whole}
use match_engine.Order.{buy}
use match_engine.Json.Coded.{Coded, coded}
use match_engine.Serialization.Scenario.{east}
use match_engine.Engine.Process.{Engine, new_engine}
use match_engine.Engine.Run.{message}
use match_engine.Engine.FailingRun.{Arrival, try_run_round, try_run}
use match_engine.Engine.Scenario.{dice, order, broken_first}
use match_engine.Generator.Orders.{encode_order}
use match_engine.Threads.Handled.{messages_of, in_hand}
use match_engine.Startup.Matching.{
  bind_all, engine_round, start_engine, start_message_queue_servers_and_matching_engine,
  matching_engine_at_work,
}
use match_engine.Startup.Ends.{EndsAs, start_heal_terminates, start_websocket_server_ends}

start_persistence_program_cases_example :
    let started = (start_persistence_program (ok tt) config running).0 in
    let made = (new_pool config pool_size running).0 in
    ((e : Error) × (made ≡ err e) × (started ≡ refused e))
    ⊎ (pool : Pool) × (made ≡ ok pool) × IsThread (ok tt) pool started
start_persistence_program_cases_example = start_persistence_program_cases (ok tt) config running

-- `listen` gives up, since the port is taken, while the thread waits.
start_heal_lem : start_heal (ok tt) (ok tt) (test ∷ []) ≡ some terminated
unfolding start_heal act_all act start loop_test destroy_thread
start_heal_lem = refl

start_heal_terminates_example : ◌≡◌ {A = Ending} terminated terminated
start_heal_terminates_example =
    start_heal_terminates (ok tt) (test ∷ []) terminated (tt, tt) start_heal_lem

abbrev Sent : Type 0
Sent = (fails : ℕ → Bool) × String

-- `listen` throws, since the port is taken, while the thread waits; then one more book is received.
abbrev waiting : List (Action Sent)
waiting = test ∷ []

abbrev leaving : List (Action Sent)
leaving = received ((λ n. false), "book") ∷ done ∷ test ∷ joined ∷ []

abbrev at_listen : Threads WebSocketServer Sent
at_listen = record {
  state = new_server;
  handled = [];
  running = true;
  phase = receiving;
  joining = false;
}

abbrev at_end : Threads WebSocketServer Sent
at_end = record {
  state = record { latest_order_book = "book"; connections = []; sent = [] };
  handled = ((λ n. false), "book") ∷ [];
  running = false;
  phase = absent;
  joining = false;
}

serving_lem : act_all send_book (call_start ∷ waiting) (new_threads new_server) ≡ some at_listen
unfolding act_all act start loop_test
serving_lem = refl

leaving_lem : act_all send_book (call_stop ∷ leaving) at_listen ≡ some at_end
unfolding act_all act stop join loop_test loop_receive loop_handle send_book handle_event
    send_to_all
leaving_lem = refl

abbrev taken : Result (Unit {0})
taken = err (std_error "Underlying Transport Error")

abbrev closed : Result (Unit {0})
closed = err (std_error "websocketpp: invalid state")

start_websocket_server_ends_example :
    EndsAs taken
      (ok tt)
      closed
      (start_websocket_server (ok tt) taken (ok tt) closed waiting leaving)
    × EndsAs taken
        (ok tt)
        closed
        (start_websocket_server (ok tt) taken (ok tt) closed waiting (way_out at_listen.phase))
start_websocket_server_ends_example =
    start_websocket_server_ends taken (ok tt) closed waiting at_listen leaving at_end
      (λ x e. (std_error "websocketpp: invalid state", refl)) (tt, tt) (tt, (tt, (tt, (tt, tt))))
      serving_lem leaving_lem refl

-- The engine's thread has handled an order, and waits in `recv`.
abbrev order_text : String
order_text = encode_order Coded (order buy 9 102 6)

-- The first send of a trade would throw.
abbrev arrival : Arrival
arrival = record { now = 7; faults = broken_first; received = message order_text }

abbrev one_order : List (Action Arrival)
one_order = test ∷ received arrival ∷ done ∷ test ∷ []

abbrev engine_threads : Threads (Engine ℕ) Arrival
engine_threads = record {
  state = try_run_round ℕ Coded dice 7 broken_first (message order_text) (new_engine ℕ);
  handled = arrival ∷ [];
  running = true;
  phase = receiving;
  joining = false;
}

engine_threads_lem : start_engine ℕ Coded dice one_order ≡ some engine_threads
unfolding start_engine engine_round act_all act start loop_test loop_receive loop_handle
engine_threads_lem = refl

abbrev bound_all : List (Result (Unit {0}))
bound_all = ok tt ∷ ok tt ∷ ok tt ∷ []

bound_all_lem : bind_all bound_all ≡ ok tt
unfolding bind_all
bound_all_lem = refl

matching_engine_at_work_example :
    (start_message_queue_servers_and_matching_engine ℕ Coded dice bound_all one_order ≡ none)
    × (engine_threads.state ≡ try_run ℕ Coded dice engine_threads.handled (new_engine ℕ))
    × (messages_of one_order ≡ engine_threads.handled ++ in_hand engine_threads.phase)
matching_engine_at_work_example =
    matching_engine_at_work ℕ Coded dice bound_all one_order engine_threads bound_all_lem
      (tt, (tt, (tt, (tt, tt)))) engine_threads_lem
