-- ===== src/Logger/Examples.antt =====
-- The theorems on the log at concrete inputs.
use match_engine.Prelude.{◌≡◌, refl, true, List, [], ◌∷◌}
use match_engine.Prelude.Int.{pos}
use match_engine.Persistence.Statements.{decimal}
use match_engine.Serialization.Times.{Tm}
use match_engine.Logger.Lines.{
  debug, info, warn, LocalTime, new_logger, init, log_line, find_last_of,
}
use match_engine.Logger.Entries.{Entry, log_all, shown_lines, log_all-init}

abbrev noon : Tm
noon = record {
  tm_year = pos 124;
  tm_mon = pos 0;
  tm_mday = pos 2;
  tm_hour = pos 12;
  tm_min = pos 0;
  tm_sec = pos 0;
}

-- A clock that stands still.
instance abbrev stopped_clock : LocalTime
stopped_clock = record {
  to_time_t = λ n. pos n;
  localtime = λ z. noon;
  put_time = λ tm. "2024-01-02 12:00:00";
}

abbrev entries : List Entry
entries =
    record { now = 7_000_000; message = "a"; level = warn; file = "/src/main.cpp"; line = 12 }
    ∷ record { now = 8_000_000; message = "b"; level = debug; file = "main.cpp"; line = 13 }
    ∷ []

one_line :
    log_line 7_000_000 "a" warn "/src/main.cpp" 12
    ≡ "[2024-01-02 12:00:00.007] [WARN] [main.cpp:12] a"
unfolding log_line find_last_of decimal
one_line = refl

log_all-init_example :
    (log_all entries (init (λ path. true) "server.log" info new_logger)).lines ≡ shown_lines entries
log_all-init_example = log_all-init (λ path. true) "server.log" entries
