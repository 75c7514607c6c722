-- ===== src/Database/Scenario.antt =====
-- A concrete database client for the witnesses: a server that is up or down, the handles that are
-- open, and the statements that were sent.
use match_engine.Prelude.{
  ℕ, ◌≡◌, refl, Bool, true, false, not, ◌||◌, String, none, some, List, [], ◌∷◌, ◌++◌,
  if◌then◌else◌, ◌==◌, arith,
}
use match_engine.Prelude.Int.{pos}
use match_engine.Database.Connection.{DbConfig, Pointer, Mysql}
use match_engine.Database.Reconnect.{IsMysql}

abbrev pub config : DbConfig
config = record {
  host = "localhost";
  port = pos 3306;
  user = "root";
  password = "";
  database = "trading";
}

pub record Server : Type 0 where
  pub is_up : Bool
  pub opened : ℕ → Bool
  pub statements : List String

abbrev pub closing : Pointer → Server → Server
closing none s = s
closing (some handle) s = record s { opened = λ (n : ℕ). if n == handle then false else s.opened n }

abbrev pub opened_at : Pointer → Server → Bool
opened_at none s = false
opened_at (some handle) s = s.opened handle

instance abbrev pub server : Mysql Server
server = record {
  init = λ s. (some 1, s);
  real_connect = λ handle host user password database port s.
      (not s.is_up, record s { opened = λ (n : ℕ). n == handle || s.opened n });
  close = closing;
  query = λ p text s.
      (not s.is_up || not (opened_at p s), record s { statements = s.statements ++ text ∷ [] });
  is_lost = λ p s. not s.is_up;
  store_result = λ p s. none;
}

closing_closes :
    (handle : ℕ) (s : Server) → opened_at (some handle) (closing (some handle) s) ≡ false
closing_closes handle s = ground arith

pub server-IsMysql : IsMysql Server
server-IsMysql = record {
  is_open = λ handle s. s.opened handle;
  close_closes = closing_closes;
  query_keeps = λ handle text s. refl;
}

abbrev pub running : Server
running = record { is_up = true; opened = λ (n : ℕ). n == 1; statements = [] }

abbrev pub stopped : Server
stopped = record { is_up = false; opened = λ (n : ℕ). n == 1; statements = [] }
