-- ===== src/Generator/Examples.antt =====
-- The theorems on the order generator at concrete inputs.
use match_engine.Prelude.{ℕ, ◌≡◌, ◌+◌, ◌++◌, refl, none, List, [], map, All, arith, ◌%◌}
use match_engine.Prelude.Int.{pos}
use match_engine.Prelude.Result.{ok}
use match_engine.Double.Whole.{whole}
use match_engine.Order.{Order}
use match_engine.Json.Coded.{Coded, coded}
use match_engine.Serialization.Scenario.{east}
use match_engine.Database.Reconnect.{holding}
use match_engine.Database.Scenario.{server, Server, running}
use match_engine.Generator.Orders.{Draws, Stoul, Generator, encode_order, generate_loop}
use match_engine.Generator.Ids.{IsNew, id_of, counting, generate_loop_orders}

abbrev pub draws : Draws ℕ
draws = record {
  price = λ n. 100 + n;
  quantity = λ n. 1 + n;
  fee_rate = λ n. 0;
  order_side = λ n. n % 2;
  order_type = λ n. 0;
  system_clock = pos;
}

instance abbrev no_numbers : Stoul
no_numbers = record { stoul = λ s. none; stoul_error = λ s. "stoul" }

abbrev start : Generator Server
start = record { order_id_counter = 10000; db = holding 1 running; sent = [] }

generate_loop_orders_example :
    let g' = (generate_loop ℕ Coded draws 3 0 start).1 in
    (orders : List (Order ℕ)) × ((generate_loop ℕ Coded draws 3 0 start).0 ≡ ok tt)
    × (g'.order_id_counter ≡ 10000 + 3)
    × (g'.sent ≡ [] ++ map (encode_order Coded) orders)
    × (map id_of orders ≡ counting 10000 3)
    × All IsNew orders
generate_loop_orders_example =
    generate_loop_orders Coded draws 3 0 start (1, running, refl) (omega arith)
