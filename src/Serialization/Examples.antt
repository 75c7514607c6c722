-- ===== src/Serialization/Examples.antt =====
-- The round trips over whole numbers, coded JSON and a calendar two hours east of UTC.
use match_engine.Prelude.{ℕ, ◌≡◌, ◌⊎◌, ◌<>◌, true, false, [], ◌∷◌, arith}
use match_engine.Prelude.Result.{ok, err, Error, std_error, what_of, ◌>>=◌}
use match_engine.Order.{Order}
use match_engine.Json.{object_of}
use match_engine.Serialization.Typed.{IsOrderAt, deserialize_order_cases}
use match_engine.Double.Whole.{whole, stod-to_string}
use match_engine.Json.Coded.{Coded, coded, coded-IsJson}
use match_engine.Serialization.Orders.{
  serialize_order, serialize_trade_record, deserialize_order, deserialize_trade_record,
  deserialize_message, read_order,
}
use match_engine.Serialization.RoundTrip.{
  reread_order, reread_trade, deserialize_order-serialize_order,
  deserialize_trade_record-serialize_trade_record,
}
use match_engine.Serialization.Scenario.{east, east-IsCalendar, sample_order, sample_trade}

deserialize_order-serialize_order_example :
    (deserialize_message {J = Coded} (serialize_order Coded sample_order) >>= deserialize_order)
    ≡ ok (reread_order coded-IsJson east-IsCalendar (λ a. a) stod-to_string sample_order)
deserialize_order-serialize_order_example =
    deserialize_order-serialize_order coded-IsJson east-IsCalendar (λ a. a) stod-to_string
      sample_order (omega arith, omega arith)

deserialize_trade_record-serialize_trade_record_example :
    (deserialize_message {J = Coded} (serialize_trade_record Coded sample_trade)
      >>= deserialize_trade_record)
    ≡ ok (reread_trade coded-IsJson east-IsCalendar (λ a. a) stod-to_string sample_trade)
deserialize_trade_record-serialize_trade_record_example =
    deserialize_trade_record-serialize_trade_record coded-IsJson east-IsCalendar (λ a. a)
      stod-to_string sample_trade (omega arith, omega arith, omega arith, omega arith, omega arith)

-- An object without the members of an order.
abbrev lone_member : Coded
lone_member = object_of coded.null (("price", coded.of_string "1") ∷ [])

deserialize_order_cases_example :
    ((coded.is_object lone_member ≡ false)
      × (deserialize_order {D = ℕ} lone_member
          ≡ err (std_error "deserializeOrder: JSON root is not an object")))
    ⊎ ((coded.is_object lone_member ≡ true)
        × ((o : Order ℕ) × (deserialize_order lone_member ≡ ok o) × IsOrderAt lone_member o))
    ⊎ (coded.is_object lone_member ≡ true)
      × (x : Error) × (read_order {D = ℕ} lone_member ≡ err x)
      × (deserialize_order {D = ℕ} lone_member
          ≡ err (std_error ("Error deserializing Order: " <> what_of x)))
deserialize_order_cases_example = deserialize_order_cases lone_member
