-- ===== src/Market/Examples.antt =====
-- The theorem of Market/Clearing.antt at concrete inputs.
use match_engine.Prelude.{ℕ, List, ◌∷◌, ◌*◌, sym, subst, ◌≤◌, ◌+◌, refl, none, [], arith, ◌%◌}
use match_engine.Prelude.Int.{pos}
use match_engine.Double.Whole.{whole, whole_ranked, whole_exact, stod-to_string}
use match_engine.Json.Coded.{Coded, coded, coded-IsJson}
use match_engine.Serialization.Scenario.{east, east-IsCalendar}
use match_engine.Engine.Process.{new_engine}
use match_engine.Engine.Run.{run, message}
use match_engine.Engine.Exact.{IsLive}
use match_engine.Engine.Sweep.{open_book}
use match_engine.Engine.Messages.{traded_units}
use match_engine.Engine.Totals.{ordered}
use match_engine.Engine.Arrivals.{arrivals}
use match_engine.Engine.FailingRun.{Arrival, try_run}
use match_engine.Engine.Lossy.{AllLiveEngine}
use match_engine.Engine.LossyRun.{heard, AllLiveOrders, try_run_bounds}
use match_engine.Engine.Scenario.{dice, no_faults, broken_first}
use match_engine.Database.Reconnect.{holding}
use match_engine.Database.Scenario.{server, Server, running}
use match_engine.Generator.Orders.{
  round_to_precision, Draws, Stoul, Generator, create_random_order, encode_order, generate_loop,
}
use match_engine.Market.Orders.{new_order, delivered, reread_at, arrivals-delivered}
use match_engine.Market.Clearing.{IsTradable, IsCleared, reread_at-IsAdmissible, run-generate_loop}

abbrev draws : Draws ℕ
draws = record {
  price = λ n. 100 + n % 3;
  quantity = λ n. 1 + n % 9;
  fee_rate = λ n. 0;
  order_side = λ n. n % 2;
  order_type = λ n. 0;
  system_clock = pos;
}

instance abbrev no_numbers : Stoul
no_numbers = record { stoul = λ s. none; stoul_error = λ s. "stoul" }

abbrev start : Generator Server
start = record { order_id_counter = 10000; db = holding 1 running; sent = [] }

draws-IsTradable : IsTradable whole_ranked whole_exact (λ a. a) draws
unfolding round_to_precision
draws-IsTradable = record {
  price_known = λ n. refl;
  quantity_grid = λ n. ground arith;
  wants = λ n. omega arith;
  filled_grid = refl;
  filled_units = refl;
}

run-generate_loop_example :
    let sent = (generate_loop ℕ Coded draws 20 0 start).1.sent in
    IsCleared whole_ranked whole_exact coded-IsJson east-IsCalendar
      (λ a. a)
      stod-to_string
      draws
      (λ n. n)
      draws-IsTradable
      20
      (holding 1 running)
      (run ℕ Coded dice (delivered (λ n. n) 0 sent) (new_engine ℕ))
run-generate_loop_example =
    run-generate_loop whole_ranked whole_exact coded-IsJson east-IsCalendar (λ a. a) stod-to_string
      draws (λ n. n) draws-IsTradable dice 20 start (holding 1 running) (λ n. omega arith)
      (omega arith) refl (1, running, refl) (1, running, refl)

-- The trade of the second order cannot be sent.
abbrev two_texts : List Arrival
two_texts =
    record {
      now = 0;
      faults = no_faults;
      received = message (encode_order Coded (new_order draws 0 10000));
    }
    ∷ record {
      now = 1;
      faults = broken_first;
      received =
          message (encode_order Coded (new_order draws 1 (create_random_order draws 0 10000).0));
    }
    ∷ []

drawn-IsLive :
    (index counter : ℕ)
    → IsLive whole_exact (
        reread_at coded-IsJson east-IsCalendar (λ a. a) stod-to_string draws (λ n. n) index counter)
drawn-IsLive index counter =
    (reread_at-IsAdmissible whole_ranked whole_exact coded-IsJson east-IsCalendar (λ a. a)
      stod-to_string draws (λ n. n) draws-IsTradable index counter).0.live

two_orders-AllLive : AllLiveOrders Coded whole_exact (arrivals ℕ Coded (heard two_texts))
two_orders-AllLive =
    subst (AllLiveOrders Coded whole_exact)
      (sym (
        arrivals-delivered coded-IsJson east-IsCalendar (λ a. a) stod-to_string draws (λ n. n) 2 0
          10000))
      (drawn-IsLive 0 10000, (drawn-IsLive 1 (create_random_order draws 0 10000).0, tt))

try_run_bounds_example :
    let e = try_run ℕ Coded dice two_texts (new_engine ℕ) in
    AllLiveEngine whole_exact e
    × (open_book whole_exact e.buy_orders
          + open_book whole_exact e.sell_orders
          + 2 * traded_units whole_exact e.results
        ≤ ordered whole_exact (arrivals ℕ Coded (heard two_texts)))
try_run_bounds_example = try_run_bounds Coded whole_exact dice two_texts two_orders-AllLive
