-- ===== src/Generator/Stored.antt =====
-- `generateOrders` on a database with two rows, of which the second is no order.
use text.Mathlib.Text.{◌==◌}
use match_engine.Prelude.{
  ℕ, ◌≡◌, ◌++◌, refl, inl, false, String, Option, none, some, List, [], ◌∷◌, map, All, arith,
  if◌then◌else◌,
}
use match_engine.Prelude.Result.{ok}
use match_engine.Double.{to_string}
use match_engine.Double.Whole.{whole}
use match_engine.Order.{Order}
use match_engine.Json.Coded.{Coded, coded}
use match_engine.Serialization.Scenario.{east}
use match_engine.Database.Connection.{Mysql, Row, DbConnection, execute_query_with_result}
use match_engine.Database.Reconnect.{holding}
use match_engine.Generator.Orders.{
  Stoul, Generator, load_statement, max_id_statement, max_id_of, generate_orders,
}
use match_engine.Generator.Ids.{IsNew, id_of, counting}
use match_engine.Generator.Examples.{draws}
use match_engine.Generator.Resend.{IsRead, texts, generate_orders-IsRead}

-- A database that answers the last query.
record Shelf : Type 0 where
  last_query : String

abbrev number : ℕ → String
number n = to_string n

abbrev order_row : Row
order_row =
    ("order_id", "10001")
    ∷ ("user_id", "10001")
    ∷ ("price", number 100)
    ∷ ("quantity", number 3)
    ∷ ("fee_rate", number 0)
    ∷ ("order_side", "BUY")
    ∷ ("order_type", "LIMIT")
    ∷ ("status", "MATCHING")
    ∷ ("filled_quantity", number 0)
    ∷ ("create_time", "")
    ∷ ("update_time", "")
    ∷ []

abbrev stored : List Row
stored = order_row ∷ (("order_id", "NULL") ∷ []) ∷ []

abbrev highest : List Row
highest = (("max_order_id", "10001") ∷ []) ∷ []

abbrev columns : Row → List (String × Option String)
columns = map λ (name, value). (name, some value)

instance abbrev shelf : Mysql Shelf
shelf = record {
  init = λ s. (some 1, s);
  real_connect = λ handle host user password database port s. (false, s);
  close = λ p s. s;
  query = λ p text s. (false, record { last_query = text });
  is_lost = λ p s. false;
  store_result =
      λ p s. some (map columns (if s.last_query == max_id_statement then highest else stored));
}

instance abbrev one_number : Stoul
one_number = record {
  stoul = λ s. if s == "10001" then some 10001 else none;
  stoul_error = λ s. "stoul";
}

abbrev start : Generator Shelf
start = record { order_id_counter = 10000; db = holding 1 (record { last_query = "" }); sent = [] }

abbrev asked : String → DbConnection Shelf
asked text = holding 1 (record { last_query = text })

generate_orders-IsRead_example :
    let (result, g') = generate_orders ℕ Coded draws 2 start in
    (resent orders : List (Order ℕ)) × (result ≡ ok tt)
    × IsRead stored resent
    × (g'.sent ≡ start.sent ++ (texts Coded resent ++ texts Coded orders))
    × (map id_of orders ≡ counting 10001 2)
    × All IsNew orders
unfolding execute_query_with_result max_id_of
generate_orders-IsRead_example =
    generate_orders-IsRead Coded draws 2 start stored highest 10001 (asked load_statement)
      (asked max_id_statement) (1, start.db.client, refl) refl refl
      (inl (("max_order_id", "10001") ∷ [], [], 10001, refl, ("10001", refl, refl), refl))
      (omega arith)
