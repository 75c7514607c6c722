-- ===== src/Database/Handles.antt =====
-- src/DbConnection.cpp and src/DbConnectionPool.cpp: the destructors, and which handles of the MySQL
-- client stay open.
use match_engine.Prelude.{
  ℕ, zero, suc, ◌≡◌, ◌≢◌, refl, subst, ◌∙◌, String, ◌==◌, arith, Bool, true, false, inl, inr, none,
  some, List, [], ◌∷◌, Option-cases, Bool-cases, All,
}
use match_engine.Prelude.Result.{err, Error}
use match_engine.Database.Connection.{
  Mysql, Pointer, DbConfig, connected, from_handle, new_connection,
}
use match_engine.Database.Pool.{Pool, add_connection, fill_pool, new_pool}

module _ {S : Type 0} ⦃m : Mysql S⦄ where
  -- The destructor of a connection, and that of a pool.
  unfoldable pub destroy_connection : Pointer → S → S
  destroy_connection none s = s
  destroy_connection (some handle) s = m.close (some handle) s

  unfoldable pub destroy_connections : List Pointer → S → S
  unfolding destroy_connection
  destroy_connections [] s = s
  destroy_connections (conn ∷ rest) s = destroy_connections rest (destroy_connection conn s)

  unfoldable pub destroy_pool : Pool → S → S
  unfolding destroy_connections
  destroy_pool pool s = destroy_connections pool.connections s

-- What the manual says of handles that are open: `mysql_init` gives another one and, as
-- `mysql_real_connect` does, leaves them open; `mysql_close` closes its own and no other.
pub record IsClient (S : Type 0) ⦃m : Mysql S⦄ : Type 0 where
  pub is_open : ℕ → S → Bool
  pub init_other : (h h' : ℕ) (s : S) → is_open h s ≡ true → (m.init s).0 ≡ some h' → h' ≢ h
  pub init_keeps : (h : ℕ) (s : S) → is_open h (m.init s).1 ≡ is_open h s
  pub connect_opens :
      (h : ℕ) (host user password database : String) (port : ℕ) (s : S)
      → (m.real_connect h host user password database port s).0 ≡ false
      → is_open h (m.real_connect h host user password database port s).1 ≡ true
  pub connect_keeps :
      (h h' : ℕ) (host user password database : String) (port : ℕ) (s : S)
      → is_open h s ≡ true
      → is_open h (m.real_connect h' host user password database port s).1 ≡ true
  pub close_closes : (h : ℕ) (s : S) → is_open h (m.close (some h) s) ≡ false
  pub close_keeps : (h h' : ℕ) (s : S) → h' ≢ h → is_open h (m.close (some h') s) ≡ is_open h s

module _ {S : Type 0} ⦃m : Mysql S⦄ (laws : IsClient S) where
  -- Making a connection leaves the handles open that are, and the new one is open.
  connected-keeps :
      (h h' : ℕ) (r : Bool × S)
      → h' ≢ h
      → laws.is_open h r.1 ≡ true
      → laws.is_open h (connected h' r).client ≡ true
  unfolding connected
  connected-keeps h h' (true, s) other o = laws.close_keeps h h' s other ∙ o
  connected-keeps h h' (false, s) other o = o

  from_handle-keeps :
      (config : DbConfig) (h : ℕ) (made : Pointer × S)
      → laws.is_open h made.1 ≡ true
      → ((h' : ℕ) → made.0 ≡ some h' → h' ≢ h)
      → laws.is_open h (from_handle config made).client ≡ true
  unfolding from_handle
  from_handle-keeps config h (none, s) o other = o
  from_handle-keeps config h (some h', s) o other =
      connected-keeps h h'
        (m.real_connect h' config.host config.user config.password config.database 0 s)
        (other h' refl)
        (laws.connect_keeps h h' config.host config.user config.password config.database 0 s o)

  new_connection-keeps :
      (config : DbConfig) (h : ℕ) (s : S)
      → laws.is_open h s ≡ true
      → laws.is_open h (new_connection config s).client ≡ true
  unfolding new_connection
  new_connection-keeps config h s o =
      from_handle-keeps config h (m.init s) (laws.init_keeps h s ∙ o)
        (λ h' e. laws.init_other h h' s o e)

  fill_pool-keeps :
      (config : DbConfig) (left : ℕ) (pool : Pool) (h : ℕ) (s : S)
      → laws.is_open h s ≡ true
      → laws.is_open h (fill_pool config left pool s).1 ≡ true
  unfolding fill_pool
  fill_pool-keeps config zero pool h s o = o
  fill_pool-keeps config (suc left) pool h s o =
      let o' = new_connection-keeps config h s o in
      elim (Option-cases (new_connection config s).conn) [
        | inl e ↦ rw (fill_pool, e) o'
        | inr (handle, e) ↦
            rw (fill_pool, e)
              (fill_pool-keeps config left (add_connection (some handle) pool) h
                (new_connection config s).client o')
      ]

  -- A connection that has a handle has an open one.
  connected-opens :
      (h h' : ℕ) (r : Bool × S)
      → (r.0 ≡ false → laws.is_open h' r.1 ≡ true)
      → (connected h' r).conn ≡ some h
      → laws.is_open h (connected h' r).client ≡ true
  unfolding connected
  connected-opens h h' (true, s) opens e = cc
  connected-opens h h' (false, s) opens e =
      let same : h' ≡ h = cc in subst (λ k. laws.is_open k s ≡ true) same (opens refl)

  from_handle-opens :
      (config : DbConfig) (h : ℕ) (made : Pointer × S)
      → (from_handle config made).conn ≡ some h
      → laws.is_open h (from_handle config made).client ≡ true
  unfolding from_handle
  from_handle-opens config h (none, s) e = cc
  from_handle-opens config h (some h', s) e =
      connected-opens h h'
        (m.real_connect h' config.host config.user config.password config.database 0 s)
        (laws.connect_opens h' config.host config.user config.password config.database 0 s) e

  -- If the client library keeps its laws, and the first connection of a pool gets a handle but the
  -- constructor throws, then this handle is still open, though no object is left that could close it.
  pub new_pool_leak :
      (config : DbConfig) (pool_size h : ℕ) (s : S) (e : Error)
      → (new_connection config s).conn ≡ some h
      → (new_pool config pool_size s).0 ≡ err e
      → laws.is_open h (new_pool config pool_size s).1 ≡ true
  unfolding new_pool new_connection fill_pool
  new_pool_leak config zero h s e first thrown = cc
  new_pool_leak config (suc left) h s e first thrown =
      let opened = from_handle-opens config h (m.init s) first in
      rw (fill_pool, first)
        (fill_pool-keeps config left
          (add_connection (some h) (record { connections = []; available = [] })) h
          (new_connection config s).client opened)

  closed_stays :
      (h : ℕ) (conn : Pointer) (s : S)
      → laws.is_open h s ≡ false
      → laws.is_open h (destroy_connection conn s) ≡ false
  unfolding destroy_connection
  closed_stays h none s e = e
  closed_stays h (some h') s e = elim (Bool-cases (h' == h)) [
    | inl b ↦
        let same : h' ≡ h = ground arith in
        subst (λ k. laws.is_open k (m.close (some h') s) ≡ false) same (laws.close_closes h' s)
    | inr b ↦ let other : h' ≢ h = ground arith in laws.close_keeps h h' s other ∙ e
  ]

  destroy_connections_closed :
      (h : ℕ) (connections : List Pointer) (s : S)
      → laws.is_open h s ≡ false
      → laws.is_open h (destroy_connections connections s) ≡ false
  unfolding destroy_connections
  destroy_connections_closed h [] s e = e
  destroy_connections_closed h (conn ∷ rest) s e =
      destroy_connections_closed h rest (destroy_connection conn s) (closed_stays h conn s e)

  -- No handle of the list is open.
  abbrev pub AllClosed : S → List Pointer → Type 0
  AllClosed s = All λ conn. (h : ℕ) → conn ≡ some h → laws.is_open h s ≡ false

  destroy_connections-AllClosed :
      (connections : List Pointer) (s : S)
      → AllClosed (destroy_connections connections s) connections
  unfolding destroy_connections destroy_connection
  destroy_connections-AllClosed [] s = tt
  destroy_connections-AllClosed (none ∷ rest) s =
      ((λ h e. cc), destroy_connections-AllClosed rest s)
  destroy_connections-AllClosed (some h' ∷ rest) s = (
    (λ h e.
        let same : h' ≡ h = cc in
        subst (λ k. laws.is_open k (destroy_connections rest (m.close (some h') s)) ≡ false) same
          (destroy_connections_closed h' rest (m.close (some h') s) (laws.close_closes h' s))),
    destroy_connections-AllClosed rest (m.close (some h') s),
  )

  -- If the client library keeps its laws, a pool's destructor leaves none of its handles open.
  pub destroy_pool-AllClosed :
      (pool : Pool) (s : S) → AllClosed (destroy_pool pool s) pool.connections
  unfolding destroy_pool
  destroy_pool-AllClosed pool s = destroy_connections-AllClosed pool.connections s
