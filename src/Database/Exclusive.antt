-- ===== src/Database/Exclusive.antt =====
-- Where the connections of the pool of Database/Pool.antt are, after any calls.
use match_engine.Prelude.{
  ℕ, zero, suc, ◌+◌, ◌<◌, ◌≡◌, refl, ap, sym, subst, ◌∙◌, inl, inr, none, some, List, [], ◌∷◌, ◌++◌,
  length, length-append, All, All-append, if◌then◌else◌, ltb, ◌==◌, arith, Option-cases,
}
use match_engine.Prelude.Result.{Result, ok, err, std_error}
use match_engine.Database.Connection.{Mysql, Pointer, DbConfig, new_connection}
use match_engine.Database.Pool.{
  Pool, add_connection, fill_pool, new_pool, get_connection, return_connection, Reachable, made,
  taken, returned,
}

pub count : ℕ → List ℕ → ℕ
count n [] = 0
count n (m ∷ rest) = (if m == n then 1 else 0) + count n rest

count-append : (n : ℕ) (xs ys : List ℕ) → count n (xs ++ ys) ≡ count n xs + count n ys
unfolding count
count-append n [] ys = omega arith
count-append n (m ∷ xs) ys = omega (arith, count-append n xs ys)

-- Each number below `size` stands once among the two lists, and no other stands there.
abbrev pub IsSplit : (size : ℕ) → (available held : List ℕ) → Type 0
IsSplit size available held =
    (n : ℕ) → count n available + count n held ≡ (if ltb n size then 1 else 0)

pub front_below : (size n : ℕ) (rest : List ℕ) → IsSplit size (n ∷ rest) [] → n < size
unfolding count
front_below size n rest split = ground (arith, split n)

pub queue_not_empty : (size : ℕ) → 0 < size → IsSplit size [] [] → ⊥
unfolding count
queue_not_empty size pos split = ground (arith, split 0)

-- A connection that goes from the front of the queue to its end.
pub rotated-IsSplit :
    (size n : ℕ) (rest : List ℕ) → IsSplit size (n ∷ rest) [] → IsSplit size (rest ++ n ∷ []) []
unfolding count
rotated-IsSplit size n rest split k = omega (arith, split k, count-append k rest (n ∷ []))

abbrev pub HasHandle : Pointer → Type 0
HasHandle conn = (handle : ℕ) × (conn ≡ some handle)

pub record IsFull (size : ℕ) (pool : Pool) : Type 0 where
  pub sized : length pool.connections ≡ size
  pub connected : All HasHandle pool.connections
  pub split : IsSplit size pool.available []

one_more :
    (n size : ℕ)
    → (if ltb n size then 1 else 0) + (if size == n then 1 else 0)
      ≡ (if ltb n (size + 1) then 1 else 0)
one_more n size = ground arith

add_connection-IsFull :
    (handle size : ℕ) (pool : Pool)
    → IsFull size pool
    → IsFull (size + 1) (add_connection (some handle) pool)
unfolding add_connection count
add_connection-IsFull handle size pool h = record {
  sized = length-append pool.connections (some handle ∷ []) ∙ ap (λ n. n + 1) h.sized;
  connected =
      All-append HasHandle pool.connections (some handle ∷ []) h.connected ((handle, refl), tt);
  split = λ n.
      let apart = count-append n pool.available (length pool.connections ∷ []) in
      let here : count n (length pool.connections ∷ []) ≡ (if size == n then 1 else 0) + 0 =
        ap (λ m. (if m == n then 1 else 0) + 0) h.sized in
      omega (arith, apart, here, h.split n, one_more n size);
}

module _ {S : Type 0} ⦃m : Mysql S⦄ where
  -- What `fill_pool` does about the handle of a new connection.
  abbrev after_connect : DbConfig → ℕ → Pool → S → Pointer → Result Pool × S
  after_connect config left pool s conn = elim conn [
    | none ↦ (err (std_error "Failed to create database connection"), s)
    | some handle ↦ fill_pool config left (add_connection (some handle) pool) s
  ]

  pub fill_pool-null :
      (config : DbConfig) (left : ℕ) (pool : Pool) (s : S)
      → (new_connection config s).conn ≡ none
      → (fill_pool config (suc left) pool s).0
        ≡ err (std_error "Failed to create database connection")
  unfolding fill_pool
  fill_pool-null config left pool s e =
      ap (λ conn. (after_connect config left pool (new_connection config s).client conn).0) e

  pub fill_pool-handle :
      (config : DbConfig) (left : ℕ) (pool : Pool) (s : S) (handle : ℕ)
      → (new_connection config s).conn ≡ some handle
      → fill_pool config (suc left) pool s
        ≡ fill_pool config left (add_connection (some handle) pool) (new_connection config s).client
  unfolding fill_pool
  fill_pool-handle config left pool s handle e =
      ap (after_connect config left pool (new_connection config s).client) e

  fill_pool-IsFull :
      (config : DbConfig) (left size : ℕ) (pool : Pool) (s : S) (full : Pool)
      → IsFull size pool
      → (fill_pool config left pool s).0 ≡ ok full
      → IsFull (size + left) full
  unfolding fill_pool
  fill_pool-IsFull config zero size pool s full h e =
      let same : pool ≡ full = cc in
      let sum : size ≡ size + 0 = omega arith in
      subst (λ n. IsFull n full) sum (subst (λ q. IsFull size q) same h)
  fill_pool-IsFull config (suc left) size pool s full h e =
      let c = new_connection config s in
      elim (Option-cases c.conn) [
        | inl e' ↦ let refused = fill_pool-null config left pool s e' in cc
        | inr (handle, e') ↦
            let added = add_connection (some handle) pool in
            let more = add_connection-IsFull handle size pool h in
            let sum : (size + 1) + left ≡ size + suc left = omega arith in
            subst (λ n. IsFull n full) sum
              (fill_pool-IsFull config left (size + 1) added c.client full more
                (sym (ap (λ r. r.0) (fill_pool-handle config left pool s handle e')) ∙ e))
      ]

get_connection-count :
    (cs : List Pointer) (available : List ℕ) (p' : Pool) (n : ℕ)
    → get_connection (record { connections = cs; available = available }) ≡ some (n, p')
    → (k : ℕ) → count k available ≡ (if n == k then 1 else 0) + count k p'.available
unfolding get_connection count
get_connection-count cs [] p' n e k = cc
get_connection-count cs (m ∷ rest) p' n e k =
    let first : m ≡ n = cc in
    let others : record { connections = cs; available = rest } ≡ p' = cc in
    ap (λ i. (if i == k then 1 else 0) + count k rest) first
    ∙ ap (λ (q : Pool). (if n == k then 1 else 0) + count k q.available) others

module _ {start : Pool} where
  Reachable-IsSplit :
      (size : ℕ) {p : Pool} {held : List ℕ}
      → IsSplit size start.available []
      → Reachable start p held
      → IsSplit size p.available held
  unfolding get_connection return_connection count
  Reachable-IsSplit size h made = h
  Reachable-IsSplit size h (taken {p = p} {p' = p'} {held = held} {n = n} r e) = λ k.
      omega (
        arith,
        Reachable-IsSplit size h r k,
        get_connection-count p.connections p.available p' n e k,
      )
  Reachable-IsSplit size h (returned {p = p} before after n r) = λ k.
      let ih = Reachable-IsSplit size h r k in
      omega (
        arith,
        ih,
        count-append k before (n ∷ after),
        count-append k before after,
        count-append k p.available (n ∷ []),
      )

module _ {S : Type 0} ⦃m : Mysql S⦄ where
  pub new_pool-IsFull :
      (config : DbConfig) (pool_size : ℕ) (s : S) (start : Pool)
      → (new_pool config pool_size s).0 ≡ ok start
      → IsFull pool_size start
  unfolding new_pool count
  new_pool-IsFull config pool_size s start e =
      let empty : IsFull 0 (record { connections = []; available = [] }) = record {
        sized = refl;
        connected = tt;
        split = λ n. ground arith;
      } in
      let sum : 0 + pool_size ≡ pool_size = omega arith in
      subst (λ k. IsFull k start) sum (fill_pool-IsFull config pool_size 0 _ s start empty e)

  -- If the constructor of the pool throws nothing, then after any sequence of calls, by threads that
  -- return what they took and nothing else, each of the `pool_size` connections stands once among
  -- those in the queue and those taken, and no other does.
  pub new_pool_split :
      (config : DbConfig) (pool_size : ℕ) (s : S) (start p : Pool) (held : List ℕ)
      → (new_pool config pool_size s).0 ≡ ok start
      → Reachable start p held
      → (n : ℕ) → count n p.available + count n held ≡ (if ltb n pool_size then 1 else 0)
  new_pool_split config pool_size s start p held e r n =
      Reachable-IsSplit pool_size (new_pool-IsFull config pool_size s start e).split r n
