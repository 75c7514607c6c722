-- ===== src/Database/Examples.antt =====
-- The theorems on the connection at concrete inputs.
use match_engine.Prelude.{◌+◌, ◌<◌, ◌++◌, List, ◌≡◌, String, arith, refl, false, some, [], ◌∷◌}
use match_engine.Database.Connection.{new_connection, execute_query}
use match_engine.Database.Reconnect.{holding, execute_query_lost}
use match_engine.Prelude.Result.{ok}
use match_engine.Json.Coded.{Coded, coded, coded-IsJson}
use match_engine.Json.{object_of}
use match_engine.Database.Config.{IsSettings, read_config, read_config_text}
use match_engine.Database.Pool.{
  Pool, add_connection, fill_pool, new_pool, get_connection, return_connection, made, taken,
}
use match_engine.Database.Waiting.{
  Waiters, Call, enter, check, give, take_or_sleep, notify, step, steps, steps_progress,
}
use match_engine.Database.Exclusive.{count, new_pool_split}
use match_engine.Database.Scenario.{config, server, server-IsMysql, stopped, running}

execute_query_lost_example :
    let c = (execute_query "COMMIT" (holding 1 stopped)).1 in
    (c.conn ≡ some 1) × (server-IsMysql.is_open 1 c.client ≡ false)
execute_query_lost_example = execute_query_lost server-IsMysql "COMMIT" 1 stopped refl refl

abbrev two_connections : Pool
two_connections = record { connections = some 1 ∷ some 1 ∷ []; available = 0 ∷ 1 ∷ [] }

new_pool_split_example : count 1 (1 ∷ []) + count 1 (0 ∷ []) ≡ 1
unfolding new_pool fill_pool new_connection add_connection get_connection
new_pool_split_example =
    new_pool_split config 2 running two_connections
      (record { connections = some 1 ∷ some 1 ∷ []; available = 1 ∷ [] }) (0 ∷ []) refl
      (taken made refl) 1

-- The settings in another order, with one that is not read.
abbrev fields : List (String × Coded)
fields =
    ("port", coded.of_uint 3306)
    ∷ ("comment", coded.of_string "local")
    ∷ ("database", coded.of_string "trading")
    ∷ ("password", coded.of_string "")
    ∷ ("user", coded.of_string "root")
    ∷ ("host", coded.of_string "localhost")
    ∷ []

abbrev top : List (String × Coded)
top = ("version", coded.of_uint 1) ∷ ("database", object_of coded.null fields) ∷ []

fields-IsSettings : IsSettings config 3306 fields
fields-IsSettings = record {
  host = refl;
  port_at = refl;
  user = refl;
  password = refl;
  database = refl;
  port_is = refl;
  port_fits = omega arith;
}

read_config_text_example :
    read_config Coded "config.json" (some (coded.write (object_of coded.null top))) ≡ ok config
read_config_text_example =
    read_config_text coded-IsJson "config.json" (coded.write (object_of coded.null top)) config 3306
      top fields (coded-IsJson.parse_write (object_of coded.null top)) refl fields-IsSettings

-- Two threads wait, and a connection comes back.
abbrev calls : List Call
calls = enter ∷ enter ∷ enter ∷ give 0 ∷ []

abbrev one_connection : Pool
one_connection = record { connections = some 1 ∷ []; available = 0 ∷ [] }

abbrev one_awake : Waiters
one_awake = record { pool = one_connection; handed = 0 ∷ []; sleeping = 1; awake = 1 }

calls_lem :
    steps calls (record { pool = one_connection; handed = []; sleeping = 0; awake = 0 })
    ≡ some one_awake
unfolding steps step take_or_sleep notify get_connection return_connection
calls_lem = refl

steps_progress_example :
    (0 < one_awake.awake)
    × (v : Waiters) × (step check one_awake ≡ some v)
    × (v.handed ≡ one_awake.handed ++ 0 ∷ [])
    × (v.pool.available ≡ [])
    × (v.awake + 1 ≡ one_awake.awake)
    × (v.sleeping ≡ one_awake.sleeping)
steps_progress_example =
    steps_progress calls one_connection one_awake 0 [] calls_lem refl (omega arith)
