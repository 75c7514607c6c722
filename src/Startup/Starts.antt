-- ===== src/Startup/Starts.antt =====
-- Starting the components of Startup/Parts.antt.
use match_engine.Prelude.{
  ℕ, ◌<◌, ◌≡◌, refl, ap, sym, subst, ◌⊎◌, inl, inr, some, List, [], ◌∷◌, ◌++◌, Bool, true, false,
  arith, All, length,
}
use match_engine.Prelude.Result.{Result, ok, err, Error, Result-cases}
use match_engine.Database.Connection.{Mysql, DbConfig, Pointer}
use match_engine.Database.Pool.{Pool, get_connection, new_pool}
use match_engine.Database.Exclusive.{IsFull, front_below, queue_not_empty, new_pool-IsFull}
use match_engine.Persistence.Lifetime.{
  PersistenceProgram, handle_at, connect_socket, construct, start,
}
use match_engine.Persistence.Constructed.{handle_at_below}
use match_engine.Startup.Dispatch.{
  Component, matching_engine, persistence_program, order_generator, health_check, web_socket,
}
use match_engine.Startup.Parts.{
  SocketType, push, pull, pub_socket, sub, Endpoint, bound, connected, endpoints, Persisting,
  refused, given_up, at_work, pool_size, run_thread, after_pool, start_persistence_program,
}

-- The types of sockets that talk to each other.
abbrev pub is_pair : SocketType → SocketType → Bool
is_pair push pull = true
is_pair pull push = true
is_pair sub pub_socket = true
is_pair pub_socket sub = true
is_pair push push = false
is_pair push pub_socket = false
is_pair push sub = false
is_pair pull pull = false
is_pair pull pub_socket = false
is_pair pull sub = false
is_pair pub_socket push = false
is_pair pub_socket pull = false
is_pair pub_socket pub_socket = false
is_pair sub push = false
is_pair sub pull = false
is_pair sub sub = false

-- What an endpoint connects to is bound by one of the others, with a type that talks to its own.
abbrev pub IsServed : List Endpoint → Endpoint → Type 0
IsServed others (bound type port) = Unit
IsServed others (connected type host port) =
    (host ≡ "localhost")
    × (before : List Endpoint) × (after : List Endpoint) × (type' : SocketType) × (others
        ≡ before ++ bound type' port ∷ after)
    × (is_pair type type' ≡ true)

-- Every socket that a component connects meets one that the matching engine binds, of a type that
-- talks to its own.
pub endpoints-IsServed : (c : Component) → All (IsServed (endpoints matching_engine)) (endpoints c)
unfolding endpoints
endpoints-IsServed matching_engine = (tt, (tt, (tt, tt)))
endpoints-IsServed persistence_program =
    ((refl, bound pull 12345 ∷ [], bound pub_socket 12347 ∷ [], push, refl, refl), tt)
endpoints-IsServed order_generator =
    ((refl, [], bound push 12346 ∷ bound pub_socket 12347 ∷ [], pull, refl, refl), tt)
endpoints-IsServed health_check =
    ((refl, bound pull 12345 ∷ bound push 12346 ∷ [], [], pub_socket, refl, refl), tt)
endpoints-IsServed web_socket =
    ((refl, bound pull 12345 ∷ bound push 12346 ∷ [], [], pub_socket, refl, refl), tt)

-- How the thread on a pool goes on: with a connection that has a handle, it works, or it gives up since
-- its socket cannot be connected.
abbrev pub IsThread : Result (Unit {0}) → Pool → Persisting → Type 0
IsThread connects pool started =
    (n handle : ℕ) × (pool' : Pool) × (handle_at n pool.connections ≡ some handle)
    × (((e : Error) × (connects ≡ err e) × (started ≡ given_up e pool'))
        ⊎ (p : PersistenceProgram) × (connects ≡ ok tt)
          × (started ≡ at_work p pool')
          × (p.db_conn ≡ some n)
          × (p.running ≡ true))

run_thread-IsThread :
    (connects : Result (Unit {0})) (connections : List Pointer) (available : List ℕ) (size : ℕ)
    → 0 < size
    → IsFull size (record { connections = connections; available = available })
    → IsThread connects
        (record { connections = connections; available = available })
        (run_thread connects (record { connections = connections; available = available }))
unfolding run_thread get_connection connect_socket construct start
run_thread-IsThread connects connections [] size pos h = absurd (queue_not_empty size pos h.split)
run_thread-IsThread (err e) connections (n ∷ rest) size pos h =
    let below : n < length connections = omega (arith, front_below size n rest h.split, h.sized) in
    let (handle, has) = handle_at_below n connections below h.connected in
    (
      n,
      handle,
      record { connections = connections; available = rest },
      has,
      inl (e, refl, rw (run_thread, has) refl),
    )
run_thread-IsThread (ok u) connections (n ∷ rest) size pos h =
    let below : n < length connections = omega (arith, front_below size n rest h.split, h.sized) in
    let (handle, has) = handle_at_below n connections below h.connected in
    (
      n,
      handle,
      record { connections = connections; available = rest },
      has,
      inr (
        record { db_conn = some n; running = true; joinable = true },
        refl,
        rw (run_thread, has) refl,
        refl,
        refl,
      ),
    )

module _ {S : Type 0} ⦃m : Mysql S⦄ where
  after_pool-ok :
      (connects : Result (Unit {0})) (made : Result Pool × S) (pool : Pool)
      → made.0 ≡ ok pool
      → (after_pool connects made).0 ≡ run_thread connects pool
  unfolding after_pool
  after_pool-ok connects (ok p, s) pool e =
      let same : p ≡ pool = cc in ap (run_thread connects) same
  after_pool-ok connects (err x, s) pool e = cc

  after_pool-err :
      (connects : Result (Unit {0})) (made : Result Pool × S) (x : Error)
      → made.0 ≡ err x
      → (after_pool connects made).0 ≡ refused x
  unfolding after_pool
  after_pool-err connects (ok p, s) x e = cc
  after_pool-err connects (err y, s) x e = let same : y ≡ x = cc in ap refused same

  -- `startPersistenceProgram` throws exactly the exception of the pool's constructor. If there is none,
  -- it takes a connection that has a handle, and its thread gives up if the socket cannot be connected,
  -- and works with this connection if it can: it never waits for one.
  pub start_persistence_program_cases :
      (connects : Result (Unit {0})) (config : DbConfig) (s : S)
      → let started = (start_persistence_program connects config s).0 in
        let made = (new_pool config pool_size s).0 in
        ((e : Error) × (made ≡ err e) × (started ≡ refused e))
        ⊎ (pool : Pool) × (made ≡ ok pool) × IsThread connects pool started
  unfolding start_persistence_program
  start_persistence_program_cases connects config s =
      elim (Result-cases (new_pool config pool_size s).0) [
        | inl (pool, e) ↦
            let h = new_pool-IsFull config pool_size s pool e in
            let thread =
              run_thread-IsThread connects pool.connections pool.available pool_size (omega arith)
                h in
            inr (
              pool,
              e,
              subst (IsThread connects pool)
                  (sym (after_pool-ok connects (new_pool config pool_size s) pool e)) thread,
            )
        | inr (x, e) ↦ inl (x, e, after_pool-err connects (new_pool config pool_size s) x e)
      ]
