-- ===== src/Persistence/Rounds.antt =====
-- The theorem of Persistence/Pipeline.antt at a concrete input.
use match_engine.Prelude.{ℕ, ◌≡◌, refl, List, ◌++◌, arith}
use match_engine.Double.Whole.{whole, stod-to_string}
use match_engine.Json.Coded.{Coded, coded, coded-IsJson}
use match_engine.Order.{buy}
use match_engine.Serialization.Scenario.{east, east-IsCalendar}
use match_engine.Engine.Trade.{Message}
use match_engine.Engine.Process.{new_engine}
use match_engine.Engine.Run
use match_engine.Engine.Scenario.{dice, order, open_engine}
use match_engine.Engine.Words.{FitsEngine}
use match_engine.Database.Reconnect.{holding}
use match_engine.Database.Scenario.{server, running}
use match_engine.Generator.Orders.{encode_order}
use match_engine.Persistence.Delivery.{issue}
use match_engine.Persistence.Pipeline.{run_rounds, deliveries, all_statements, run_rounds-run_round}

open_engine-FitsEngine : FitsEngine open_engine
unfolding new_engine
open_engine-FitsEngine = ground arith

run_rounds-run_round_example :
    let e =
      Run.run_round ℕ Coded dice 0
        (Run.message (encode_order Coded (order buy 9 102 6)))
        open_engine in
    FitsEngine e
    × (messages : List (Message ℕ)) × (e.results ≡ open_engine.results ++ messages)
    × (run_rounds ℕ Coded (deliveries Coded messages) (holding 1 running)
        ≡ issue
            (all_statements coded-IsJson east-IsCalendar (λ a. a) stod-to_string messages)
            (holding 1 running))
run_rounds-run_round_example =
    run_rounds-run_round coded-IsJson east-IsCalendar (λ a. a) stod-to_string dice 0
      (order buy 9 102 6) open_engine (holding 1 running) (λ n. omega arith)
      (omega arith, omega arith) open_engine-FitsEngine (1, running, refl)
