-- ===== src/Startup/Dispatch.antt =====
-- main.cpp. What the components do is a parameter: starting one returns or throws. So is what
-- `readConfig` gives.
use text.Mathlib.Text.{◌==◌}
use match_engine.Prelude.{ℕ, String, Option, none, some, List, [], ◌∷◌, if◌then◌else◌}
use match_engine.Prelude.Result.{Result, ok, err}
use match_engine.Database.Connection.{DbConfig}

pub data Component : Type 0 where
  matching_engine persistence_program order_generator health_check web_socket : Component

-- The tests of `main`, in their order.
unfoldable pub component_of : String → Option Component
component_of name =
    if name == "match"
    then some matching_engine
    else if name == "persis"
    then some persistence_program
    else if name == "order"
    then some order_generator
    else if name == "heal"
    then some health_check
    else if name == "kline"
    then some web_socket
    else none

-- Both exceptions are caught, so that the exit code is 0.
unfoldable pub dispatch :
    (DbConfig → Component → Result (Unit {0})) → DbConfig → Option Component → ℕ
dispatch start config none = 1
dispatch start config (some c) = elim (start config c) [ ok u ↦ 0 | err e ↦ 0 ]

unfoldable pub exit_code : (DbConfig → Component → Result (Unit {0})) → Result DbConfig → String → ℕ
unfolding component_of dispatch
exit_code start (err e) name = 0
exit_code start (ok config) name = dispatch start config (component_of name)

-- The arguments, with the program's name in front.
unfoldable pub main : (DbConfig → Component → Result (Unit {0})) → Result DbConfig → List String → ℕ
unfolding exit_code
main start config [] = 1
main start config (program ∷ []) = 1
main start config (program ∷ name ∷ rest) = exit_code start config name
