-- ===== src/Startup/Parts.antt =====
-- main.cpp: what a component does once it is started, as far as it is not one of the servers: the
-- sockets that each makes, and the programs on the database. The constructors of src/OrderGenerator.cpp,
-- src/PersistenceProgram.cpp, src/HealthCheckServer.cpp and src/WebSocketServer.cpp connect the sockets.
use match_engine.Prelude.{ℕ, String, none, some, List, [], ◌∷◌}
use match_engine.Prelude.Result.{Result, ok, err, Error}
use match_engine.Double.{Double}
use match_engine.Json.{Json}
use match_engine.Serialization.Times.{Calendar}
use match_engine.Database.Connection.{Mysql, DbConfig, new_connection}
use match_engine.Database.Pool.{Pool, new_pool}
use match_engine.Persistence.Lifetime.{PersistenceProgram, waits, threw, built, construct, start}
use match_engine.Generator.Orders.{Draws, Stoul, Generator, new_generator, generate_orders}
use match_engine.Startup.Dispatch.{
  Component, matching_engine, persistence_program, order_generator, health_check, web_socket,
}

pub data SocketType : Type 0 where
  push pull pub_socket sub : SocketType

pub data Endpoint : Type 0 where
  bound : SocketType → (port : ℕ) → Endpoint
  connected : SocketType → (host : String) → (port : ℕ) → Endpoint

unfoldable pub endpoints : Component → List Endpoint
endpoints matching_engine = bound pull 12345 ∷ bound push 12346 ∷ bound pub_socket 12347 ∷ []
endpoints persistence_program = connected pull "localhost" 12346 ∷ []
endpoints order_generator = connected push "localhost" 12345 ∷ []
endpoints health_check = connected sub "localhost" 12347 ∷ []
endpoints web_socket = connected sub "localhost" 12347 ∷ []

-- How `startPersistenceProgram` goes on: the pool's exception leaves it; the thread waits for a
-- connection; the thread has caught an exception, and the function returns; the program runs until it
-- is stopped; or the process is ended.
pub data Persisting : Type 0 where
  refused : Error → Persisting
  waiting : Pool → Persisting
  given_up : Error → Pool → Persisting
  at_work : PersistenceProgram → Pool → Persisting
  ended : Persisting

abbrev pub pool_size : ℕ
pool_size = 8

-- The thread, where `connects` says what connecting the socket throws.
unfoldable pub run_thread : (connects : Result (Unit {0})) → Pool → Persisting
unfolding construct start
run_thread connects pool = elim (construct connects pool) [
  | waits ↦ waiting pool
  | threw e pool' ↦ given_up e pool'
  | built p pool' ↦ elim (start p) [ none ↦ ended | some p' ↦ at_work p' pool' ]
]

module _ {S : Type 0} ⦃m : Mysql S⦄ where
  unfoldable pub after_pool : (connects : Result (Unit {0})) → Result Pool × S → Persisting × S
  unfolding run_thread
  after_pool connects (err e, s) = (refused e, s)
  after_pool connects (ok pool, s) = (run_thread connects pool, s)

  unfoldable pub start_persistence_program :
      (connects : Result (Unit {0})) → DbConfig → S → Persisting × S
  unfolding new_pool after_pool
  start_persistence_program connects config s = after_pool connects (new_pool config pool_size s)

module _ (D J : Type 0) {S : Type 0} ⦃d : Double D⦄ ⦃j : Json J⦄ ⦃c : Calendar⦄ ⦃p : Stoul⦄
    ⦃m : Mysql S⦄ where
  unfoldable pub start_order_generator : Draws D → DbConfig → S → Result (Unit {0}) × Generator S
  unfolding new_connection generate_orders new_generator
  start_order_generator draws config s =
      generate_orders D J draws 100 (new_generator (new_connection config s))
