-- ===== src/Generator/Feed.antt =====
-- From the generator to the engine: what `run` of src/MatchingEngine.cpp makes of the text that
-- `sendOrder` of src/OrderGenerator.cpp sends.
use text.Mathlib.Text.{◌==◌}
use match_engine.Prelude.{ℕ, ◌≡◌, refl, false, String, some, List, [], ◌∷◌}
use match_engine.Prelude.Result.{ok}
use match_engine.Double.{Double, to_string}
use match_engine.Order.{Order}
use match_engine.Json.{Json, IsJson, object_of}
use match_engine.Serialization.Times.{Calendar, IsCalendar}
use match_engine.Serialization.Orders.{serialize_order, serialize_message, order_json}
use match_engine.Serialization.RoundTrip.{
  FitsOrder, reread_order, deserialize_order-order_json, deserialize_message-write,
}
use match_engine.Engine.Trade.{Env}
use match_engine.Engine.Process.{Engine, process_order}
use match_engine.Engine.Run.{message, decode_order, run_round}
use match_engine.Persistence.Delivery.{text_of, write-ne-empty}
use match_engine.Generator.Orders.{encode_order}

module _ {D J : Type 0} ⦃d : Double D⦄ ⦃j : Json J⦄ ⦃c : Calendar⦄ (laws : IsJson J)
    (times : IsCalendar) (reread : D → D)
    (stod_text : (a : D) → d.stod (to_string a) ≡ some (reread a)) where
  pub decode_order-encode_order :
      (o : Order D)
      → FitsOrder o
      → decode_order D J (encode_order J o) ≡ ok (reread_order laws times reread stod_text o)
  unfolding decode_order encode_order serialize_message serialize_order
  decode_order-encode_order o f =
      let fs : List (String × J) =
        ("type", j.of_string "ORDER") ∷ ("order", j.of_string (j.write (order_json o))) ∷ [] in
      rw
        (
          deserialize_message-write laws times reread stod_text (object_of j.null fs),
          text_of laws times reread stod_text fs "order" (j.write (order_json o)) refl,
          deserialize_message-write laws times reread stod_text (order_json o),
        )
        (deserialize_order-order_json laws times reread stod_text o f)

  pub encode_order-ne-empty : (o : Order D) → (encode_order J o == "") ≡ false
  unfolding encode_order serialize_message
  encode_order-ne-empty o = write-ne-empty laws times reread stod_text _

  -- If jsoncpp and the calendar keep their laws, and `std::stod` reads every `std::to_string a` as
  -- `reread a`, then, for an order whose ids fit their members, a round of the engine on the text that the generator sends for an order is the
  -- processing of that order with its doubles and times reread.
  pub run_round-encode_order :
      (env : Env) (now : ℕ) (o : Order D) (e : Engine D)
      → FitsOrder o
      → run_round D J env now (message (encode_order J o)) e
        ≡ process_order env now (reread_order laws times reread stod_text o) e
  unfolding run_round
  run_round-encode_order env now o e f =
      rw (encode_order-ne-empty o, decode_order-encode_order o f) refl
