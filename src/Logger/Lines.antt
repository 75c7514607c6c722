-- ===== src/Logger/Lines.antt =====
-- src/include/Logger.h: the class `Logger`. Each of its functions runs under the mutex from start to
-- end. The C library's local time is a parameter, and so is whether a file can be opened; the lines
-- are those written since the start of the program.
use Prim.Native.String.{len}
use Prim.Native.Char.{Char, code}
use match_engine.Prelude.{
  ℕ, zero, suc, ◌-◌, ◌/◌, ◌%◌, Bool, true, String, Option, none, some, List, [], ◌∷◌, ◌++◌, ◌<>◌,
  repeated, ◌==◌, ltb, if◌then◌else◌,
}
use match_engine.Prelude.Int.{ℤ}
use match_engine.Serialization.Times.{Tm}
use match_engine.Persistence.Statements.{decimal}

pub data LogLevel : Type 0 where
  debug : LogLevel
  info : LogLevel
  warn : LogLevel
  error : LogLevel

-- An enumerator is the number of its place.
unfoldable pub number : LogLevel → ℕ
number debug = 0
number info = 1
number warn = 2
number error = 3

unfoldable pub get_level_string : LogLevel → String
get_level_string debug = "DEBUG"
get_level_string info = "INFO"
get_level_string warn = "WARN"
get_level_string error = "ERROR"

-- A reading of the system's clock is in nanoseconds.
pub record LocalTime : Type 0 where
  pub to_time_t : ℕ → ℤ
  pub localtime : ℤ → Tm
  pub put_time : Tm → String

-- `log_file` is the path of the open file.
pub record Logger : Type 0 where
  pub log_file : Option String
  pub current_log_level : LogLevel
  pub lines : List String

-- The constructor.
unfoldable pub new_logger : Logger
new_logger = record { log_file = none; current_log_level = info; lines = [] }

unfoldable pub init :
    (opens : String → Bool) → (log_file_path : String) → LogLevel → Logger → Logger
init opens path level logger = elim logger.log_file [
  | none ↦
      if opens path
      then record logger { log_file = some path; current_log_level = level }
      else logger
  | some open_path ↦ record logger { current_log_level = level }
]

unfoldable pub set_log_level : LogLevel → Logger → Logger
set_log_level level logger = record logger { current_log_level = level }

-- A slash or a backslash.
unfoldable pub is_separator : Char → Bool
is_separator c = if code c == 47 then true else code c == 92

-- `find_last_of("\\/")`, in characters.
unfoldable pub find_last_of : String → Option ℕ
unfolding is_separator
find_last_of String.[] = none
find_last_of (String.◌∷◌ c text) =
    let later = find_last_of text in
    elim later [ some n ↦ some (suc n) | none ↦ if is_separator c then some 0 else none ]

-- `substr(n)`.
unfoldable pub substr : ℕ → String → String
substr zero text = text
substr (suc n) String.[] = ""
substr (suc n) (String.◌∷◌ c text) = substr n text

unfoldable pub file_name : String → String
unfolding find_last_of substr
file_name file = elim (find_last_of file) [
  | none ↦ file
  | some last_slash ↦ substr (suc last_slash) file
]

-- `std::setfill('0') << std::setw(width)`.
unfoldable pub zero_padded : ℕ → String → String
unfolding repeated
zero_padded width s = repeated (width - len s) "0" <> s

module _ ⦃t : LocalTime⦄ where
  unfoldable pub timestamp : ℕ → String
  unfolding zero_padded
  timestamp now =
      t.put_time (t.localtime (t.to_time_t now))
      <> "."
      <> zero_padded 3 (decimal (now / 1_000_000 % 1000))

  unfoldable pub log_line :
      ℕ → (message : String) → LogLevel → (file : String) → (line : ℕ) → String
  unfolding timestamp get_level_string file_name
  log_line now message level file line =
      "["
      <> timestamp now
      <> "] ["
      <> get_level_string level
      <> "] ["
      <> file_name file
      <> ":"
      <> decimal line
      <> "] "
      <> message

  unfoldable pub log :
      ℕ → (message : String) → LogLevel → (file : String) → (line : ℕ) → Logger → Logger
  unfolding number log_line
  log now message level file line logger =
      let written : Logger = elim logger.log_file [
        | none ↦ logger
        | some path ↦ record logger {
          lines = logger.lines ++ log_line now message level file line ∷ [];
        }
      ] in
      if ltb (number level) (number logger.current_log_level) then logger else written
