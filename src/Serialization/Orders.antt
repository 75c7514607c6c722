-- ===== src/Serialization/Orders.antt =====
-- src/Serialization.cpp: orders, trade records and messages as JSON texts, and back.
use match_engine.Prelude.{◌<>◌, not, String, none, some, List, [], ◌∷◌, if◌then◌else◌}
use match_engine.Prelude.Result.{Result, ok, err, std_error, what_of, rethrow, ◌>>=◌}
use match_engine.Double.{Double, to_string}
use match_engine.Order.{Order, TradeRecord}
use match_engine.Json.{Json, object_of}
use match_engine.Serialization.Enums.{
  order_side_to_string, string_to_order_side, order_type_to_string, string_to_order_type,
  order_status_to_string, string_to_order_status,
}
use match_engine.Serialization.Times.{Calendar, time_point_to_string, string_to_time_point}

module _ {J : Type 0} ⦃j : Json J⦄ where
  unfoldable pub serialize_message : J → String
  serialize_message message = j.write message

  unfoldable pub deserialize_message : String → Result J
  deserialize_message text = elim (j.parse text) [
    | none ↦ err (std_error "Failed to parse JSON")
    | some root ↦ ok root
  ]

  -- `root[key].asString()`, and the like.
  abbrev pub string_at : String → J → Result String
  string_at key root = j.get key root >>= j.as_string

module _ {D : Type 0} ⦃d : Double D⦄ where
  unfoldable pub read_double : String → String → Result D
  read_double key text = elim (d.stod text) [
    | none ↦ err (std_error ("Conversion error for key " <> key <> ": " <> d.stod_error text))
    | some a ↦ ok a
  ]

module _ {D J : Type 0} ⦃d : Double D⦄ ⦃j : Json J⦄ where
  -- `||` of the source does not look at `value[key]` where the key is missing.
  unfoldable pub convert_string_to_double : J → String → Result D
  unfolding read_double
  convert_string_to_double value key =
      let refused : Result D =
        err (std_error ("Key is missing or not a string in JSON object: " <> key)) in
      let present : Result D = j.get key value >>= λ v.
      if j.is_string v then (j.as_string v >>= read_double key) else refused in
      if j.is_member key value then present else refused

module _ {D J : Type 0} ⦃d : Double D⦄ ⦃j : Json J⦄ ⦃c : Calendar⦄ where
  unfoldable pub order_fields : Order D → List (String × J)
  order_fields o =
      ("orderId", j.of_uint o.order_id)
      ∷ ("userId", j.of_uint o.user_id)
      ∷ ("price", j.of_string (to_string o.price))
      ∷ ("quantity", j.of_string (to_string o.quantity))
      ∷ ("feeRate", j.of_string (to_string o.fee_rate))
      ∷ ("orderSide", j.of_string (order_side_to_string o.order_side))
      ∷ ("orderType", j.of_string (order_type_to_string o.order_type))
      ∷ ("status", j.of_string (order_status_to_string o.status))
      ∷ ("createTime", j.of_string (time_point_to_string o.create_time))
      ∷ ("updateTime", j.of_string (time_point_to_string o.update_time))
      ∷ ("filledQuantity", j.of_string (to_string o.filled_quantity))
      ∷ []

  unfoldable pub order_json : Order D → J
  unfolding object_of order_fields
  order_json o = object_of j.null (order_fields o)

  -- The `try` block of `deserializeOrder`.
  unfoldable pub read_order : J → Result (Order D)
  read_order root = do
    order_id ← j.get "orderId" root >>= j.as_uint
    user_id ← j.get "userId" root >>= j.as_uint64
    price ← convert_string_to_double root "price"
    quantity ← convert_string_to_double root "quantity"
    fee_rate ← convert_string_to_double root "feeRate"
    order_side ← string_at "orderSide" root
    order_type ← string_at "orderType" root
    status ← string_at "status" root
    create_time ← string_at "createTime" root
    update_time ← string_at "updateTime" root
    filled_quantity ← convert_string_to_double root "filledQuantity"
    ok (record {
      order_id = order_id;
      user_id = user_id;
      price = price;
      quantity = quantity;
      fee_rate = fee_rate;
      order_side = string_to_order_side order_side;
      order_type = string_to_order_type order_type;
      status = string_to_order_status status;
      create_time = string_to_time_point create_time;
      update_time = string_to_time_point update_time;
      filled_quantity = filled_quantity;
    })

  unfoldable pub deserialize_order : J → Result (Order D)
  unfolding read_order
  deserialize_order root =
      if not (j.is_object root)
      then err (std_error "deserializeOrder: JSON root is not an object")
      else rethrow (λ e. std_error ("Error deserializing Order: " <> what_of e)) (read_order root)

  unfoldable pub trade_fields : TradeRecord D → List (String × J)
  trade_fields t =
      ("tradeId", j.of_uint t.trade_id)
      ∷ ("buyerUserId", j.of_uint t.buyer_user_id)
      ∷ ("sellerUserId", j.of_uint t.seller_user_id)
      ∷ ("buyerOrderId", j.of_uint t.buyer_order_id)
      ∷ ("sellerOrderId", j.of_uint t.seller_order_id)
      ∷ ("orderType", j.of_string t.order_type)
      ∷ ("tradePrice", j.of_string (to_string t.trade_price))
      ∷ ("tradeQuantity", j.of_string (to_string t.trade_quantity))
      ∷ ("buyerFee", j.of_string (to_string t.buyer_fee))
      ∷ ("sellerFee", j.of_string (to_string t.seller_fee))
      ∷ ("tradeTime", j.of_string (time_point_to_string t.trade_time))
      ∷ []

  unfoldable pub trade_json : TradeRecord D → J
  unfolding object_of trade_fields
  trade_json t = object_of j.null (trade_fields t)

  unfoldable pub read_trade_record : J → Result (TradeRecord D)
  read_trade_record root = do
    trade_id ← j.get "tradeId" root >>= j.as_uint
    buyer_user_id ← j.get "buyerUserId" root >>= j.as_uint64
    seller_user_id ← j.get "sellerUserId" root >>= j.as_uint64
    buyer_order_id ← j.get "buyerOrderId" root >>= j.as_uint
    seller_order_id ← j.get "sellerOrderId" root >>= j.as_uint
    order_type ← string_at "orderType" root
    trade_price ← convert_string_to_double root "tradePrice"
    trade_quantity ← convert_string_to_double root "tradeQuantity"
    buyer_fee ← convert_string_to_double root "buyerFee"
    seller_fee ← convert_string_to_double root "sellerFee"
    trade_time ← string_at "tradeTime" root
    ok (record {
      trade_id = trade_id;
      buyer_user_id = buyer_user_id;
      seller_user_id = seller_user_id;
      buyer_order_id = buyer_order_id;
      seller_order_id = seller_order_id;
      order_type = order_type;
      trade_price = trade_price;
      trade_quantity = trade_quantity;
      buyer_fee = buyer_fee;
      seller_fee = seller_fee;
      trade_time = string_to_time_point trade_time;
    })

  unfoldable pub deserialize_trade_record : J → Result (TradeRecord D)
  unfolding read_trade_record
  deserialize_trade_record root =
      if not (j.is_object root)
      then err (std_error "deserializeTradeRecord: JSON root is not an object")
      else rethrow (λ e. std_error ("Error deserializing TradeRecord: " <> what_of e))
          (read_trade_record root)

module _ {D : Type 0} (J : Type 0) ⦃d : Double D⦄ ⦃j : Json J⦄ ⦃c : Calendar⦄ where
  unfoldable pub serialize_order : Order D → String
  unfolding order_json
  serialize_order o = j.write (order_json o)

  unfoldable pub serialize_trade_record : TradeRecord D → String
  unfolding trade_json
  serialize_trade_record t = j.write (trade_json t)
