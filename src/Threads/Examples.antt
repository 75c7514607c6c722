-- ===== src/Threads/Examples.antt =====
-- The theorems on the threads at concrete inputs.
use match_engine.Prelude.{◌+◌, ◌≤◌, ◌≡◌, refl, false, true, String, some, List, [], ◌∷◌, length}
use match_engine.Servers.Health.{HealthCheckServer}
use match_engine.Startup.Serve.{keep_book}
use match_engine.Threads.{
  Threads, Action, receiving, absent, received, done, test, joined, act_all, act, stop, join,
  loop_test, loop_receive, loop_handle,
}
use match_engine.Threads.Stop.{stop_bounds, way_out}

-- The thread waits in `recv`.
abbrev waiting : Threads HealthCheckServer String
waiting = record {
  state = record { latest_order_book = "old" };
  handled = "old" ∷ [];
  running = true;
  phase = receiving;
  joining = false;
}

abbrev last_book : List (Action String)
last_book = received "new" ∷ done ∷ test ∷ joined ∷ []

abbrev after : Threads HealthCheckServer String
after = record {
  state = record { latest_order_book = "new" };
  handled = "old" ∷ "new" ∷ [];
  running = false;
  phase = absent;
  joining = false;
}

last_book_lem : act_all keep_book last_book (stop waiting) ≡ some after
unfolding act_all act stop join loop_test loop_receive loop_handle keep_book
last_book_lem = refl

stop_bounds_example :
    (length last_book ≤ 4)
    × (length after.handled ≤ length waiting.handled + 1)
    × (after.joining ≡ false → after.phase ≡ absent)
    × (w : Threads HealthCheckServer String) × (act_all keep_book
          (way_out waiting.phase)
          (stop waiting)
        ≡ some w)
    × (w.joining ≡ false)
stop_bounds_example =
    stop_bounds keep_book waiting after last_book (tt, (tt, (tt, (tt, tt)))) last_book_lem
