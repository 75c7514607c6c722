-- ===== src/Persistence/Lifetime.antt =====
-- src/PersistenceProgram.cpp: the constructor and destructor, start of the thread, and
-- `reconnectResultClient`. What a call of the socket throws is an input. `stop`, which
-- waits for the thread, is in Threads.antt.
use match_engine.Prelude.{
  ℕ, zero, suc, Bool, true, false, Option, none, some, List, [], ◌∷◌, if◌then◌else◌,
}
use match_engine.Prelude.Result.{Result, ok, err, Error, zmq_error, std_error}
use match_engine.Database.Connection.{Pointer}
use match_engine.Database.Pool.{Pool, get_connection, return_connection}

-- `db_conn` is the connection's number in the pool; `joinable` says whether `workerThread` has a thread
-- that is not joined.
pub record PersistenceProgram : Type 0 where
  pub db_conn : Option ℕ
  pub running : Bool
  pub joinable : Bool

-- How the constructor ends: it waits for a connection, it throws, or it makes an object.
pub data Construction : Type 0 where
  waits : Construction
  threw : Error → Pool → Construction
  built : PersistenceProgram → Pool → Construction

-- The handle of a connection of the pool.
unfoldable pub handle_at : ℕ → List Pointer → Pointer
handle_at n [] = none
handle_at zero (conn ∷ rest) = conn
handle_at (suc n) (conn ∷ rest) = handle_at n rest

-- After `getConnection`, which gives no null pointer: the test of the handle, and `resultSocket.connect`. An exception leaves the
-- constructor, so there is no destructor to give the connection back.
unfoldable pub connect_socket : (connects : Result (Unit {0})) → ℕ → Pool → Pointer → Construction
connect_socket connects n pool none = threw (std_error "Failed to get database connection") pool
connect_socket (err e) n pool (some handle) = threw e pool
connect_socket (ok u) n pool (some handle) =
    built (record { db_conn = some n; running = false; joinable = false }) pool

unfoldable pub construct : (connects : Result (Unit {0})) → Pool → Construction
unfolding handle_at connect_socket
construct connects pool = elim (get_connection pool) [
  | none ↦ waits
  | some (n, pool') ↦ connect_socket connects n pool' (handle_at n pool'.connections)
]

-- The assignment of a thread to one that is joinable ends the program: the result is `none`.
unfoldable pub start : PersistenceProgram → Option PersistenceProgram
start p = if p.joinable then none else some (record p { running = true; joinable = true })

unfoldable release : Option ℕ → Pool → Pool
release none pool = pool
release (some n) pool = return_connection n pool

-- The destructor, and those of the members: that of a joinable thread ends the program.
unfoldable destroy : PersistenceProgram → Pool → Option Pool
unfolding release
destroy p pool = if p.joinable then none else some (release p.db_conn pool)

-- How `reconnectResultClient` ends, with the number of its last round: in this round `running` was read
-- as false, or the socket was connected, or an exception other than `zmq::error_t` was thrown, which
-- nothing there catches.
pub data Reconnection : Type 0 where
  left_off reconnected : ℕ → Reconnection
  left_by : Error → ℕ → Reconnection

-- `running n` is what round `n` reads, and `connects n` what its three calls of the socket (close, the
-- new socket, connect) throw first, if one throws. After an error of the socket it sleeps, and goes on.
-- Where the fuel runs out, the result is `none`.
unfoldable pub reconnect_result_client :
    (running : ℕ → Bool) → (connects : ℕ → Result (Unit {0})) → (fuel n : ℕ) → Option Reconnection
reconnect_result_client running connects zero n = none
reconnect_result_client running connects (suc fuel) n =
    let later = reconnect_result_client running connects fuel (suc n) in
    if running n
    then elim (connects n) [
      | ok u ↦ some (reconnected n)
      | err (zmq_error what) ↦ later
      | err (std_error what) ↦ some (left_by (std_error what) n)
    ]
    else some (left_off n)
