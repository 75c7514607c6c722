-- ===== src/Database/Waiting.antt =====
-- The condition variable of src/DbConnectionPool.cpp: threads that wait in `getConnection`. A waiting thread
-- sleeps, or it has been woken and still has to test the queue under the mutex.
use match_engine.Prelude.{
  ℕ, zero, suc, ◌+◌, ◌<◌, ◌≤◌, ◌≡◌, refl, sym, subst, ◌∙◌, Option, none, some, List, [], ◌∷◌, ◌++◌,
  arith, length, length-append, Option-cases, inl, inr,
}
use match_engine.Database.Pool.{Pool, get_connection, return_connection}

-- `handed` has the numbers of the connections that calls have returned, in their order.
pub record Waiters : Type 0 where
  pub pool : Pool
  pub handed : List ℕ
  pub sleeping : ℕ
  pub awake : ℕ

-- A thread calls `getConnection`; one that was woken tests the queue; one wakes with no reason, as a
-- condition variable may; a connection is returned.
pub data Call : Type 0 where
  enter check spurious : Call
  give : ℕ → Call

-- What the test of the predicate leads to: the thread sleeps, or it takes the front.
unfoldable pub take_or_sleep : Option (ℕ × Pool) → Waiters → Waiters
take_or_sleep none w = record w { sleeping = w.sleeping + 1 }
take_or_sleep (some (n, pool)) w = record w { pool = pool; handed = w.handed ++ n ∷ [] }

-- `notify_one`.
unfoldable pub notify : ℕ → Waiters → Waiters
notify zero w = w
notify (suc k) w = record w { sleeping = k; awake = w.awake + 1 }

unfoldable pub wake : ℕ → Waiters → Option Waiters
wake zero w = none
wake (suc k) w = some (record w { sleeping = k; awake = w.awake + 1 })

unfoldable pub test_again : ℕ → Waiters → Option Waiters
unfolding take_or_sleep
test_again zero w = none
test_again (suc k) w = some (take_or_sleep (get_connection w.pool) (record w { awake = k }))

unfoldable pub step : Call → Waiters → Option Waiters
unfolding take_or_sleep notify wake test_again get_connection return_connection
step enter w = some (take_or_sleep (get_connection w.pool) w)
step check w = test_again w.awake w
step spurious w = wake w.sleeping w
step (give n) w = some (notify w.sleeping (record w { pool = return_connection n w.pool }))

unfoldable pub steps : List Call → Waiters → Option Waiters
unfolding step
steps [] w = some w
steps (c ∷ rest) w = elim (step c w) [ none ↦ none | some v ↦ steps rest v ]

-- No wake-up is lost: while a thread sleeps, each connection in the queue has a thread that is awake.
IsAttended : Waiters → Type 0
IsAttended w = 0 < w.sleeping → length w.pool.available ≤ w.awake

reached : (w v u : Waiters) → some v ≡ some u → IsAttended v → IsAttended u
reached w v u e h = let same : v ≡ u = cc in subst IsAttended same h

step-IsAttended :
    (c : Call) (connections : List (Option ℕ)) (available handed : List ℕ) (sleeping awake : ℕ)
    (u : Waiters)
    → let w : Waiters = record {
      pool = record { connections = connections; available = available };
      handed = handed;
      sleeping = sleeping;
      awake = awake;
    } in
      IsAttended w → step c w ≡ some u → IsAttended u
unfolding step IsAttended
step-IsAttended enter connections [] handed sleeping awake u h e =
    reached u _ u e (λ s. omega arith)
step-IsAttended enter connections (n ∷ rest) handed sleeping awake u h e =
    reached u _ u e (λ s. omega (arith, h s))
step-IsAttended check connections available handed sleeping zero u h e = cc
step-IsAttended check connections [] handed sleeping (suc awake) u h e =
    reached u _ u e (λ s. omega arith)
step-IsAttended check connections (n ∷ rest) handed sleeping (suc awake) u h e =
    reached u _ u e (λ s. omega (arith, h s))
step-IsAttended spurious connections available handed zero awake u h e = cc
step-IsAttended spurious connections available handed (suc sleeping) awake u h e =
    reached u _ u e (λ s. omega (arith, h (omega arith)))
step-IsAttended (give n) connections available handed zero awake u h e =
    reached u _ u e (λ s. absurd (omega (arith, s)))
step-IsAttended (give n) connections available handed (suc sleeping) awake u h e =
    reached u _ u e (λ s. omega (arith, h (omega arith), length-append available (n ∷ [])))

steps-IsAttended :
    (calls : List Call) (w u : Waiters) → IsAttended w → steps calls w ≡ some u → IsAttended u
unfolding steps
steps-IsAttended [] w u h e = reached w w u e h
steps-IsAttended (c ∷ rest) w u h e = elim (Option-cases (step c w)) [
  | inl none_next ↦ let stuck : steps (c ∷ rest) w ≡ none = rw (steps, none_next) refl in cc
  | inr (v, next) ↦
      let onward : steps (c ∷ rest) w ≡ steps rest v = rw (steps, next) refl in
      steps-IsAttended rest v u
        (step-IsAttended c w.pool.connections w.pool.available w.handed w.sleeping w.awake v h next)
        (sym onward ∙ e)
]

check-takes :
    (connections : List (Option ℕ)) (n : ℕ) (rest handed : List ℕ) (sleeping k : ℕ)
    → let w : Waiters = record {
      pool = record { connections = connections; available = n ∷ rest };
      handed = handed;
      sleeping = sleeping;
      awake = suc k;
    } in
      step check w
      ≡ some (record w {
        pool = record { connections = connections; available = rest };
        handed = handed ++ n ∷ [];
        awake = k;
      })
unfolding step
check-takes connections n rest handed sleeping k = refl

awake_takes :
    (connections : List (Option ℕ)) (n : ℕ) (rest handed : List ℕ) (sleeping awake : ℕ)
    → let w : Waiters = record {
      pool = record { connections = connections; available = n ∷ rest };
      handed = handed;
      sleeping = sleeping;
      awake = awake;
    } in
      0 < awake
      → (v : Waiters) × (step check w ≡ some v)
        × (v.handed ≡ handed ++ n ∷ [])
        × (v.pool.available ≡ rest)
        × (v.awake + 1 ≡ awake)
        × (v.sleeping ≡ sleeping)
awake_takes connections n rest handed sleeping zero h = absurd (omega arith)
awake_takes connections n rest handed sleeping (suc k) h =
    (_, check-takes connections n rest handed sleeping k, refl, refl, omega arith, refl)

someone_awake :
    (sleeping awake size : ℕ)
    → (0 < sleeping → size ≤ awake)
    → 0 < size
    → 0 < sleeping + awake
    → 0 < awake
someone_awake zero awake size h some_left waits = omega arith
someone_awake (suc sleeping) awake size h some_left waits = omega (arith, h (omega arith))

-- On a pool on which no thread waits yet, after any calls: if a connection is in the queue and a thread
-- waits, then some thread is awake, and its next test of the queue takes the connection at the front.
pub steps_progress :
    (calls : List Call) (pool : Pool) (w : Waiters) (n : ℕ) (rest : List ℕ)
    → steps calls (record { pool = pool; handed = []; sleeping = 0; awake = 0 }) ≡ some w
    → w.pool.available ≡ n ∷ rest
    → 0 < w.sleeping + w.awake
    → (0 < w.awake)
      × (v : Waiters) × (step check w ≡ some v)
      × (v.handed ≡ w.handed ++ n ∷ [])
      × (v.pool.available ≡ rest)
      × (v.awake + 1 ≡ w.awake)
      × (v.sleeping ≡ w.sleeping)
unfolding IsAttended
steps_progress calls pool w n rest e front waits =
    let start : Waiters = record { pool = pool; handed = []; sleeping = 0; awake = 0 } in
    let attended = steps-IsAttended calls start w (λ s. absurd (omega (arith, s))) e in
    let awake =
      someone_awake w.sleeping w.awake (length w.pool.available) attended (rw front (omega arith))
        waits in
    let after : (available : List ℕ) → Waiters = λ available. record w {
      pool = record { connections = w.pool.connections; available = available };
    } in
    let (v, taken, last, left, fewer, same) =
      subst
        (λ (a : List ℕ).
          (v : Waiters) × (step check (after a) ≡ some v)
          × (v.handed ≡ w.handed ++ n ∷ [])
          × (v.pool.available ≡ rest)
          × (v.awake + 1 ≡ w.awake)
          × (v.sleeping ≡ w.sleeping))
        (sym front) (awake_takes w.pool.connections n rest w.handed w.sleeping w.awake awake) in
    (awake, v, taken, last, left, fewer, same)
