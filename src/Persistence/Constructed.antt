-- ===== src/Persistence/Constructed.antt =====
-- The handles of the connections in a pool, and constructors of `PersistenceProgram` that throw.
use match_engine.Prelude.{
  ℕ, zero, suc, ◌<◌, ◌≡◌, refl, List, [], ◌∷◌, arith, length, All, inl, inr, Option-cases,
}
use match_engine.Prelude.Result.{Result, err, Error, std_error}
use match_engine.Database.Connection.{Pointer}
use match_engine.Database.Pool.{Pool, get_connection}
use match_engine.Database.Exclusive.{HasHandle}
use match_engine.Persistence.Lifetime.{waits, threw, built, handle_at, connect_socket, construct}

pub handle_at_below :
    (n : ℕ) (connections : List Pointer)
    → n < length connections
    → All HasHandle connections
    → HasHandle (handle_at n connections)
unfolding handle_at
handle_at_below n [] h a = absurd (omega (arith, h))
handle_at_below zero (conn ∷ rest) h (has, a) = has
handle_at_below (suc n) (conn ∷ rest) h (has, a) = handle_at_below n rest (omega (arith, h)) a

-- The pool after a number of constructions that throw, or wait.
unfoldable pub fail_times : ℕ → Error → Pool → Pool
fail_times zero e pool = pool
fail_times (suc n) e pool = elim (construct (err e) pool) [
  | waits ↦ fail_times n e pool
  | threw e' pool' ↦ fail_times n e pool'
  | built p pool' ↦ fail_times n e pool'
]

construct-throws :
    (e : Error) (connections : List Pointer) (n : ℕ) (rest : List ℕ)
    → (e' : Error) × (construct (err e) (record { connections = connections; available = n ∷ rest })
        ≡ threw e' (record { connections = connections; available = rest }))
unfolding construct get_connection connect_socket
construct-throws e connections n rest = elim (Option-cases (handle_at n connections)) [
  | inl h ↦ (std_error "Failed to get database connection", rw h refl)
  | inr (handle, h) ↦ (e, rw h refl)
]

fail_times-empty :
    (e : Error) (connections : List Pointer) (available : List ℕ)
    → fail_times (length available) e (record { connections = connections; available = available })
      ≡ record { connections = connections; available = [] }
unfolding fail_times
fail_times-empty e connections [] = refl
fail_times-empty e connections (n ∷ rest) =
    let (e', thrown) = construct-throws e connections n rest in
    rw (fail_times, thrown) (fail_times-empty e connections rest)

-- A constructor that throws since the socket cannot be connected gives no connection back: after as
-- many of them as there are connections in the queue, the next waits, whatever becomes of its socket.
pub construct-fail_times :
    (e : Error) (connects : Result (Unit {0})) (pool : Pool)
    → construct connects (fail_times (length pool.available) e pool) ≡ waits
unfolding construct get_connection
construct-fail_times e connects pool = rw (fail_times-empty e pool.connections pool.available) refl
