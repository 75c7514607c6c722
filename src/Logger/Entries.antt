-- ===== src/Logger/Entries.antt =====
-- Which calls of `log` of Logger/Lines.antt leave a line.
use match_engine.Prelude.{
  ℕ, ◌≡◌, refl, ap, sym, ◌∙◌, Bool, true, false, inl, inr, String, some, List, [], ◌∷◌, ◌++◌,
  Bool-cases, if◌then◌else◌,
}
use mathlib.Core.List.{append-nil, append_assoc}
use match_engine.Logger.Lines.{
  LogLevel, debug, info, warn, error, number, LocalTime, Logger, new_logger, init, log_line, log,
}

-- The arguments of a call of `log`, with the reading of the clock.
pub record Entry : Type 0 where
  pub now : ℕ
  pub message : String
  pub level : LogLevel
  pub file : String
  pub line : ℕ

-- All levels but the lowest.
abbrev pub shows : LogLevel → Bool
shows debug = false
shows info = true
shows warn = true
shows error = true

module _ ⦃t : LocalTime⦄ where
  unfoldable pub log_all : List Entry → Logger → Logger
  log_all [] logger = logger
  log_all (e ∷ rest) logger = log_all rest (log e.now e.message e.level e.file e.line logger)

  -- The lines of the entries that are shown, in their order.
  abbrev pub shown_lines : List Entry → List String
  shown_lines [] = []
  shown_lines (e ∷ rest) =
      let later = shown_lines rest in
      if shows e.level then log_line e.now e.message e.level e.file e.line ∷ later else later

  abbrev writing : String → List String → Logger
  writing path lines = record { log_file = some path; current_log_level = info; lines = lines }

  log-writing :
      (now : ℕ) (message : String) (level : LogLevel) (file : String) (line : ℕ) (path : String)
      (lines : List String)
      → log now message level file line (writing path lines)
        ≡ writing path (
            lines
            ++ shown_lines (
                record { now = now; message = message; level = level; file = file; line = line }
                ∷ []))
  unfolding log number
  log-writing now message debug file line path lines = ap (writing path) (sym (append-nil lines))
  log-writing now message info file line path lines = refl
  log-writing now message warn file line path lines = refl
  log-writing now message error file line path lines = refl

  log_new :
      (now : ℕ) (message : String) (level : LogLevel) (file : String) (line : ℕ)
      → log now message level file line new_logger ≡ new_logger
  unfolding log new_logger number
  log_new now message debug file line = refl
  log_new now message info file line = refl
  log_new now message warn file line = refl
  log_new now message error file line = refl

  shown_lines-cons :
      (e : Entry) (rest : List Entry)
      → shown_lines (e ∷ rest) ≡ shown_lines (e ∷ []) ++ shown_lines rest
  shown_lines-cons e rest = elim (Bool-cases (shows e.level)) [
    | inl h ↦ rw h refl
    | inr h ↦ rw h refl
  ]

  log_all-writing :
      (entries : List Entry) (path : String) (lines : List String)
      → log_all entries (writing path lines) ≡ writing path (lines ++ shown_lines entries)
  unfolding log_all
  log_all-writing [] path lines = ap (writing path) (sym (append-nil lines))
  log_all-writing (e ∷ rest) path lines =
      ap (log_all rest) (log-writing e.now e.message e.level e.file e.line path lines)
      ∙ log_all-writing rest path (lines ++ shown_lines (e ∷ []))
      ∙ ap (writing path) (
          append_assoc lines (shown_lines (e ∷ [])) (shown_lines rest)
          ∙ ap (λ later. lines ++ later) (sym (shown_lines-cons e rest)))

  log_all-closed : (entries : List Entry) → log_all entries new_logger ≡ new_logger
  unfolding log_all
  log_all-closed [] = refl
  log_all-closed (e ∷ rest) =
      ap (log_all rest) (log_new e.now e.message e.level e.file e.line) ∙ log_all-closed rest

  -- After `init` at the level `info` of a new logger, the file gets a line for each call of `log` at
  -- another level than `debug`, in their order, and no others, if the file can be opened. If it cannot,
  -- no call leaves a line.
  pub log_all-init :
      (opens : String → Bool) (path : String) (entries : List Entry)
      → (log_all entries (init opens path info new_logger)).lines
        ≡ (if opens path then shown_lines entries else [])
  unfolding init new_logger
  log_all-init opens path entries = elim (Bool-cases (opens path)) [
    | inl h ↦ rw h (ap (λ (l : Logger). l.lines) (log_all-writing entries path []))
    | inr h ↦ rw h (ap (λ (l : Logger). l.lines) (log_all-closed entries))
  ]
