-- ===== src/Database/Reconnect.antt =====
-- `executeQuery` and `reconnect` of Database/Connection.antt on a connection that has a handle.
use match_engine.Prelude.{
  List, [], ℕ, ◌≡◌, refl, Bool, true, false, String, some, Bool-cases, Option-cases, inl, inr, ◌∙◌,
  if◌then◌else◌,
}
use match_engine.Prelude.Int.{ℤ}
use match_engine.Prelude.Result.{ok}
use match_engine.Database.Connection.{
  Mysql, DbConfig, DbConnection, new_connection, reconnect, attempt, execute_query, Row,
  stored_rows, execute_query_with_result,
}

module _ {S : Type 0} where
  abbrev pub holding : ℕ → S → DbConnection S
  holding handle s = record { conn = some handle; client = s }

module _ {S : Type 0} ⦃m : Mysql S⦄ where
  -- On a connection with a handle no query throws, whatever the server does, and the handle stays the
  -- same.
  attempt-holding {ℓ} :
      {A : Type ℓ} (text : String) (failed : A) (done : DbConnection S → A) (handle : ℕ) (s : S)
      → (a : A) × (s' : S) × (attempt text failed done (holding handle s)
          ≡ (ok a, holding handle s'))
  unfolding attempt reconnect
  attempt-holding text failed done handle s =
      let s1 = (m.query (some handle) text s).1 in
      let s2 = m.close (some handle) s1 in
      let s3 = (m.query (some handle) text s2).1 in
      elim (Bool-cases (m.query (some handle) text s).0) [
        | inr e ↦ (done (holding handle s1), s1, rw e refl)
        | inl e ↦ elim (Bool-cases (m.is_lost (some handle) s1)) [
          | inr e' ↦ (failed, s1, rw (e, e') refl)
          | inl e' ↦ (
            if (m.query (some handle) text s2).0 then failed else done (holding handle s3),
            s3,
            rw (e, e') refl,
          )
        ]
      ]

  pub execute_query-holding :
      (text : String) (handle : ℕ) (s : S)
      → (done : Bool) × (s' : S) × (execute_query text (holding handle s)
          ≡ (ok done, holding handle s'))
  unfolding execute_query
  execute_query-holding text handle s = attempt-holding text false (λ c. true) handle s

  pub execute_query_with_result-holding :
      (text : String) (handle : ℕ) (s : S)
      → (rows : List Row) × (s' : S) × (execute_query_with_result text (holding handle s)
          ≡ (ok rows, holding handle s'))
  unfolding execute_query_with_result
  execute_query_with_result-holding text handle s = attempt-holding text [] stored_rows handle s

  -- The port of the configuration plays no part in the connection that is made.
  pub new_connection_port :
      (config : DbConfig) (port : ℤ) (s : S)
      → new_connection (record config { port = port }) s ≡ new_connection config s
  unfolding new_connection
  new_connection_port config port s = elim (Option-cases (m.init s).0) [
    | inl e ↦ rw e refl
    | inr (handle, e) ↦ rw e refl
  ]

-- What the manual says of handles: `mysql_close` closes one, and a query does not open it again.
pub record IsMysql (S : Type 0) ⦃m : Mysql S⦄ : Type 0 where
  pub is_open : ℕ → S → Bool
  pub close_closes : (handle : ℕ) (s : S) → is_open handle (m.close (some handle) s) ≡ false
  pub query_keeps :
      (handle : ℕ) (text : String) (s : S)
      → is_open handle (m.query (some handle) text s).1 ≡ is_open handle s

module _ {S : Type 0} ⦃m : Mysql S⦄ (laws : IsMysql S) where
  -- If a query fails since the server is gone, and the client library keeps its laws, then
  -- `executeQuery` leaves the object with the same handle, and that handle closed.
  pub execute_query_lost :
      (text : String) (handle : ℕ) (s : S)
      → (m.query (some handle) text s).0 ≡ true
      → m.is_lost (some handle) (m.query (some handle) text s).1 ≡ true
      → let c = (execute_query text (holding handle s)).1 in
        (c.conn ≡ some handle) × (laws.is_open handle c.client ≡ false)
  unfolding execute_query reconnect
  execute_query_lost text handle s failed lost =
      let s1 = (m.query (some handle) text s).1 in
      rw (failed, lost)
        (
          refl,
          laws.query_keeps handle text (m.close (some handle) s1) ∙ laws.close_closes handle s1,
        )
