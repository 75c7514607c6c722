-- ===== src/Database/Connection.antt =====
-- src/DbConnection.cpp. The MySQL client library is a parameter: a state `S`, which has the server's
-- too, and its calls. A pointer is an `Option`, where `none` is the null pointer; a failed call is
-- `true`, as its result that is not zero.
use match_engine.Prelude.{
  ℕ, Bool, true, false, String, Option, none, some, List, [], ◌∷◌, map, if◌then◌else◌,
}
use match_engine.Prelude.Int.{ℤ}
use match_engine.Prelude.Result.{Result, ok, err, std_error}

abbrev pub Pointer : Type 0
Pointer = Option ℕ

abbrev pub Row : Type 0
Row = List (String × String)

pub record DbConfig : Type 0 where
  pub host : String
  pub port : ℤ
  pub user : String
  pub password : String
  pub database : String

pub record Mysql (S : Type 0) : Type 0 where
  pub init : S → Pointer × S
  pub real_connect :
      (handle : ℕ) → (host user password database : String) → (port : ℕ) → S → Bool × S
  pub close : Pointer → S → S
  pub query : Pointer → String → S → Bool × S
  -- `mysql_errno` is `CR_SERVER_GONE_ERROR` or `CR_SERVER_LOST`.
  pub is_lost : Pointer → S → Bool
  -- The rows of `mysql_store_result`, or `none` for its null pointer. A column that is NULL is `none`.
  pub store_result : Pointer → S → Option (List (List (String × Option String)))

pub record DbConnection (S : Type 0) : Type 0 where
  pub conn : Pointer
  pub client : S

-- One row: a column that is NULL is written so.
unfoldable pub read_row : List (String × Option String) → Row
read_row [] = []
read_row ((name, none) ∷ columns) = (name, "NULL") ∷ read_row columns
read_row ((name, some value) ∷ columns) = (name, value) ∷ read_row columns

module _ {S : Type 0} ⦃m : Mysql S⦄ where
  -- The constructor.
  unfoldable pub connected : ℕ → Bool × S → DbConnection S
  connected handle (true, s) = record { conn = none; client = m.close (some handle) s }
  connected handle (false, s) = record { conn = some handle; client = s }

  unfoldable pub from_handle : DbConfig → Pointer × S → DbConnection S
  unfolding connected
  from_handle config (none, s) = record { conn = none; client = s }
  from_handle config (some handle, s) =
      connected handle
        (m.real_connect handle config.host config.user config.password config.database 0 s)

  unfoldable pub new_connection : DbConfig → S → DbConnection S
  unfolding from_handle
  new_connection config s = from_handle config (m.init s)

  -- A call of `mysql_query`, and the connection behind it.
  unfoldable pub run_query : String → DbConnection S → Bool × DbConnection S
  run_query text c =
      let (failed, s) = m.query c.conn text c.client in (failed, record c { client = s })

  unfoldable pub get_connection : DbConnection S → Pointer
  get_connection c = c.conn

  -- `reconnect` closes the handle and asks the object itself for a new one.
  unfoldable pub reconnect : DbConnection S → Result (Unit {0}) × DbConnection S
  unfolding get_connection
  reconnect c =
      let closed : DbConnection S = record c { client = m.close c.conn c.client } in
      let again : DbConnection S = record closed { conn = get_connection closed } in
      elim again.conn [
        | none ↦ (err (std_error "Failed to reconnect to database"), again)
        | some handle ↦ (ok tt, again)
      ]

  -- The second attempt of a query, unless `reconnect` has thrown. `done` says what follows a success. The
  -- handle is one that `mysql_close` has freed, so in C this call has no defined behaviour: what the
  -- parameter answers here stands for whatever it does.
  unfoldable pub retry {ℓ} :
      {A : Type ℓ}
      → String
      → A
      → (DbConnection S → A)
      → Result (Unit {0}) × DbConnection S
      → Result A × DbConnection S
  unfolding run_query
  retry text failed done (err e, c) = (err e, c)
  retry text failed done (ok u, c) =
      let (again, c') = run_query text c in (ok (if again then failed else done c'), c')

  -- What both `executeQuery` and `executeQueryWithResult` do about a query that fails.
  unfoldable pub attempt {ℓ} :
      {A : Type ℓ} → String → A → (DbConnection S → A) → DbConnection S → Result A × DbConnection S
  unfolding run_query retry reconnect
  attempt text failed done c =
      let (first, c') = run_query text c in
      if first
      then (if m.is_lost c'.conn c'.client
          then retry text failed done (reconnect c')
          else (ok failed, c'))
      else (ok (done c'), c')

  unfoldable pub execute_query : String → DbConnection S → Result Bool × DbConnection S
  unfolding attempt
  execute_query text c = attempt text false (λ c'. true) c

  unfoldable pub stored_rows : DbConnection S → List Row
  unfolding read_row
  stored_rows c = elim (m.store_result c.conn c.client) [
    | none ↦ []
    | some rows ↦ map read_row rows
  ]

  unfoldable pub execute_query_with_result :
      String → DbConnection S → Result (List Row) × DbConnection S
  unfolding attempt stored_rows
  execute_query_with_result text c = attempt text [] stored_rows c
