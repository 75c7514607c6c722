-- ===== src/Database/Pool.antt =====
-- src/DbConnectionPool.cpp. A pointer to a connection of the pool is its number in `connections`. A
-- call runs under the mutex from start to end, so an interleaving of threads is a sequence of calls.
use match_engine.Prelude.{ℕ, zero, suc, Option, none, some, List, [], ◌∷◌, ◌++◌, length, ◌≡◌}
use match_engine.Prelude.Result.{Result, ok, err, std_error}
use match_engine.Database.Connection.{Mysql, Pointer, DbConfig, new_connection}

-- The handle of each connection, and the queue of those that wait to be taken.
pub record Pool : Type 0 where
  pub connections : List Pointer
  pub available : List ℕ

unfoldable pub add_connection : Pointer → Pool → Pool
add_connection conn pool = record {
  connections = pool.connections ++ conn ∷ [];
  available = pool.available ++ length pool.connections ∷ [];
}

module _ {S : Type 0} ⦃m : Mysql S⦄ where
  -- The loop of the constructor, with `left` connections to go. A connection without a handle ends it.
  unfoldable pub fill_pool : DbConfig → (left : ℕ) → Pool → S → Result Pool × S
  unfolding new_connection add_connection
  fill_pool config zero pool s = (ok pool, s)
  fill_pool config (suc left) pool s =
      let c = new_connection config s in
      elim c.conn [
        | none ↦ (err (std_error "Failed to create database connection"), c.client)
        | some handle ↦ fill_pool config left (add_connection (some handle) pool) c.client
      ]

  unfoldable pub new_pool : DbConfig → (pool_size : ℕ) → S → Result Pool × S
  unfolding fill_pool
  new_pool config pool_size s =
      fill_pool config pool_size (record { connections = []; available = [] }) s

-- The connection at the front of the queue. Where there is none the caller waits: the result is `none`.
unfoldable pub get_connection : Pool → Option (ℕ × Pool)
get_connection pool = elim pool.available [
  | [] ↦ none
  | n ∷ rest ↦ some (n, record pool { available = rest })
]

unfoldable pub return_connection : ℕ → Pool → Pool
return_connection n pool = record pool { available = pool.available ++ n ∷ [] }

-- The states that a pool comes to by calls of threads that return what they took and nothing else.
-- The list has the numbers that are taken.
pub data Reachable (start : Pool) : Pool → List ℕ → Type 0 where
  made : Reachable start start []
  taken :
      {p p' : Pool} {held : List ℕ} {n : ℕ}
      → Reachable start p held
      → get_connection p ≡ some (n, p')
      → Reachable start p' (n ∷ held)
  returned :
      {p : Pool} (before after : List ℕ) (n : ℕ)
      → Reachable start p (before ++ n ∷ after)
      → Reachable start (return_connection n p) (before ++ after)
