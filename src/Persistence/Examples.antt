-- ===== src/Persistence/Examples.antt =====
-- The theorems on the persistence program at concrete inputs.
use match_engine.Prelude.{ℕ, ◌≡◌, arith}
use match_engine.Double.Whole.{whole, stod-to_string}
use match_engine.Order.{Order}
use match_engine.Json.Coded.{Coded, coded, coded-IsJson}
use match_engine.Serialization.Scenario.{east, east-IsCalendar, sample_order, sample_trade}
use match_engine.Serialization.RoundTrip.{reread_order, reread_trade}
use match_engine.Engine.Trade.{trade}
use match_engine.Database.Reconnect.{holding}
use match_engine.Database.Scenario.{server, running}
use match_engine.Persistence.Program.{encode_message, message, handled, run_round}
use match_engine.Persistence.Delivery.{issue, trade_statements, run_round-trade}

run_round-trade_example :
    run_round ℕ Coded
      (message (encode_message Coded (trade sample_order sample_order sample_trade)))
      (holding 1 running)
    ≡ (
      handled,
      issue
          (trade_statements
            (reread_order coded-IsJson east-IsCalendar (λ a. a) stod-to_string sample_order)
            (reread_order coded-IsJson east-IsCalendar (λ a. a) stod-to_string sample_order)
            (reread_trade coded-IsJson east-IsCalendar (λ a. a) stod-to_string sample_trade))
          (holding 1 running),
    )
run_round-trade_example =
    run_round-trade coded-IsJson east-IsCalendar (λ a. a) stod-to_string sample_order sample_order
      sample_trade 1 running (omega arith, omega arith) (omega arith, omega arith)
      (omega arith, omega arith, omega arith, omega arith, omega arith)

abbrev as_read : Order ℕ
as_read = reread_order coded-IsJson east-IsCalendar (λ a. a) stod-to_string sample_order
