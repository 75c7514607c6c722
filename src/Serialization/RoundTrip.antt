-- ===== src/Serialization/RoundTrip.antt =====
-- Orders and trade records through src/Serialization.cpp and back.
use match_engine.Prelude.{◌<◌, ◌^◌, ◌≡◌, refl, ◌∙◌, true, inl, String, some, List}
use match_engine.Prelude.Result.{ok, ◌>>=◌}
use match_engine.Double.{Double, to_string}
use match_engine.Order.{Order, TradeRecord}
use match_engine.Json.{
  Json, IsJson, last_of, object_of, get-object_of, member-object_of, object-object_of,
}
use match_engine.Serialization.Enums.{
  order_side_to_string, order_type_to_string, order_status_to_string, enum_names,
}
use match_engine.Serialization.Times.{
  Calendar, IsCalendar, time_point_to_string, reread_time,
  string_to_time_point-time_point_to_string,
}
use match_engine.Serialization.Orders.{
  string_at, read_double, convert_string_to_double, order_fields, order_json, read_order,
  deserialize_order, trade_fields, trade_json, read_trade_record, deserialize_trade_record,
  serialize_order, serialize_trade_record, deserialize_message,
}

module _ {D : Type 0} where
  -- The numbers fit the members of the struct.
  abbrev pub FitsOrder : Order D → Type 0
  FitsOrder o = (o.order_id < 2 ^ 32) × (o.user_id < 2 ^ 64)

  abbrev pub FitsTrade : TradeRecord D → Type 0
  FitsTrade t =
      (t.trade_id < 2 ^ 32)
      × (t.buyer_user_id < 2 ^ 64)
      × (t.seller_user_id < 2 ^ 64)
      × (t.buyer_order_id < 2 ^ 32)
      × (t.seller_order_id < 2 ^ 32)

module _ {D J : Type 0} ⦃d : Double D⦄ ⦃j : Json J⦄ ⦃c : Calendar⦄ (laws : IsJson J)
    (times : IsCalendar) (reread : D → D)
    (stod_text : (a : D) → d.stod (to_string a) ≡ some (reread a)) where
  -- An order with its doubles cut to six digits and its times taken for local time.
  abbrev pub reread_order : Order D → Order D
  reread_order o = record o {
    price = reread o.price;
    quantity = reread o.quantity;
    fee_rate = reread o.fee_rate;
    create_time = reread_time o.create_time;
    update_time = reread_time o.update_time;
    filled_quantity = reread o.filled_quantity;
  }

  pub string_at_lem :
      (k : String) (root : J) (s : String)
      → j.get k root ≡ ok (j.of_string s)
      → string_at k root ≡ ok s
  string_at_lem k root s e = rw (e, laws.as_string_of s) refl

  convert_lem :
      (k : String) (root : J) (a : D)
      → j.get k root ≡ ok (j.of_string (to_string a))
      → j.is_member k root ≡ true
      → convert_string_to_double root k ≡ ok (reread a)
  unfolding convert_string_to_double
  convert_lem k root a e m =
      rw
        (
          m,
          e,
          laws.string_is_string (to_string a),
          laws.as_string_of (to_string a),
          read_double,
          stod_text a,
        )
        refl

  module _ (fields : List (String × J)) where
    pub got :
        (k : String) (v : J) → last_of k fields ≡ some v → j.get k (object_of j.null fields) ≡ ok v
    got k v e = get-object_of laws k j.null fields (inl refl) ∙ rw e refl

    got_double :
        (k : String) (a : D)
        → last_of k fields ≡ some (j.of_string (to_string a))
        → convert_string_to_double (object_of j.null fields) k ≡ ok (reread a)
    got_double k a e =
        convert_lem k (object_of j.null fields) a (got k _ e)
          (member-object_of laws k j.null fields (inl refl) ∙ rw e refl)

  abbrev pub reread_trade : TradeRecord D → TradeRecord D
  reread_trade t = record t {
    trade_price = reread t.trade_price;
    trade_quantity = reread t.trade_quantity;
    buyer_fee = reread t.buyer_fee;
    seller_fee = reread t.seller_fee;
    trade_time = reread_time t.trade_time;
  }

  read_order-order_json :
      (o : Order D) → FitsOrder o → read_order {J = J} (order_json o) ≡ ok (reread_order o)
  unfolding read_order order_json order_fields
  read_order-order_json o (small_id, small_user) =
      let fs : List (String × J) = order_fields o in
      let text = λ (k s : String) (e : last_of k fs ≡ some (j.of_string s)).
        string_at_lem k (object_of j.null fs) s (got fs k (j.of_string s) e) in
      rw
        (
          got fs "orderId" (j.of_uint o.order_id) refl,
          laws.as_uint_of o.order_id small_id,
          got fs "userId" (j.of_uint o.user_id) refl,
          laws.as_uint64_of o.user_id small_user,
          got_double fs "price" o.price refl,
          got_double fs "quantity" o.quantity refl,
          got_double fs "feeRate" o.fee_rate refl,
          text "orderSide" (order_side_to_string o.order_side) refl,
          text "orderType" (order_type_to_string o.order_type) refl,
          text "status" (order_status_to_string o.status) refl,
          text "createTime" (time_point_to_string o.create_time) refl,
          text "updateTime" (time_point_to_string o.update_time) refl,
          got_double fs "filledQuantity" o.filled_quantity refl,
          enum_names.0 o.order_side,
          enum_names.1 o.order_type,
          enum_names.2 o.status,
          string_to_time_point-time_point_to_string times o.create_time,
          string_to_time_point-time_point_to_string times o.update_time,
        )
        refl

  read_trade_record-trade_json :
      (t : TradeRecord D)
      → FitsTrade t
      → read_trade_record {J = J} (trade_json t) ≡ ok (reread_trade t)
  unfolding read_trade_record trade_json trade_fields
  read_trade_record-trade_json t (id, buyer, seller, bought, sold) =
      let fs : List (String × J) = trade_fields t in
      let text = λ (k s : String) (e : last_of k fs ≡ some (j.of_string s)).
        string_at_lem k (object_of j.null fs) s (got fs k (j.of_string s) e) in
      rw
        (
          got fs "tradeId" (j.of_uint t.trade_id) refl,
          laws.as_uint_of t.trade_id id,
          got fs "buyerUserId" (j.of_uint t.buyer_user_id) refl,
          laws.as_uint64_of t.buyer_user_id buyer,
          got fs "sellerUserId" (j.of_uint t.seller_user_id) refl,
          laws.as_uint64_of t.seller_user_id seller,
          got fs "buyerOrderId" (j.of_uint t.buyer_order_id) refl,
          laws.as_uint_of t.buyer_order_id bought,
          got fs "sellerOrderId" (j.of_uint t.seller_order_id) refl,
          laws.as_uint_of t.seller_order_id sold,
          text "orderType" t.order_type refl,
          got_double fs "tradePrice" t.trade_price refl,
          got_double fs "tradeQuantity" t.trade_quantity refl,
          got_double fs "buyerFee" t.buyer_fee refl,
          got_double fs "sellerFee" t.seller_fee refl,
          text "tradeTime" (time_point_to_string t.trade_time) refl,
          string_to_time_point-time_point_to_string times t.trade_time,
        )
        refl

  pub order_json-is_object : (o : Order D) → j.is_object (order_json {J = J} o) ≡ true
  unfolding order_json order_fields
  order_json-is_object o = object-object_of laws j.null (order_fields o) (inl refl) (λ e. cc)

  pub trade_json-is_object : (t : TradeRecord D) → j.is_object (trade_json {J = J} t) ≡ true
  unfolding trade_json trade_fields
  trade_json-is_object t = object-object_of laws j.null (trade_fields t) (inl refl) (λ e. cc)

  pub deserialize_order-order_json :
      (o : Order D) → FitsOrder o → deserialize_order {J = J} (order_json o) ≡ ok (reread_order o)
  unfolding deserialize_order
  deserialize_order-order_json o fits =
      rw (order_json-is_object o, read_order-order_json o fits) refl

  pub deserialize_trade_record-trade_json :
      (t : TradeRecord D)
      → FitsTrade t
      → deserialize_trade_record {J = J} (trade_json t) ≡ ok (reread_trade t)
  unfolding deserialize_trade_record
  deserialize_trade_record-trade_json t fits =
      rw (trade_json-is_object t, read_trade_record-trade_json t fits) refl

  pub deserialize_message-write : (v : J) → deserialize_message (j.write v) ≡ ok v
  unfolding deserialize_message
  deserialize_message-write v = rw (laws.parse_write v, deserialize_message) refl

  -- If jsoncpp and the calendar keep their laws, and `std::stod` reads every `std::to_string a` as
  -- `reread a`, then an order whose ids fit their members and that is serialized, parsed and deserialized comes back with the same ids,
  -- side, type and status, its doubles reread, and its times as `gmtime` followed by `mktime` gives
  -- them.
  pub deserialize_order-serialize_order :
      (o : Order D)
      → FitsOrder o
      → (deserialize_message {J = J} (serialize_order J o) >>= deserialize_order)
        ≡ ok (reread_order o)
  unfolding serialize_order
  deserialize_order-serialize_order o fits =
      rw (deserialize_message-write (order_json o)) (deserialize_order-order_json o fits)

  -- Under the same hypotheses, a trade record whose ids fit and that is serialized, parsed and deserialized comes back
  -- with the same ids and type, its doubles reread, and its time as `gmtime` followed by `mktime`
  -- gives it.
  pub deserialize_trade_record-serialize_trade_record :
      (t : TradeRecord D)
      → FitsTrade t
      → (deserialize_message {J = J} (serialize_trade_record J t) >>= deserialize_trade_record)
        ≡ ok (reread_trade t)
  unfolding serialize_trade_record
  deserialize_trade_record-serialize_trade_record t fits =
      rw (deserialize_message-write (trade_json t)) (deserialize_trade_record-trade_json t fits)
