-- ===== src/Serialization/Typed.antt =====
-- What `deserializeOrder` of src/Serialization.cpp accepts: any JSON value, not only what `serializeOrder`
-- has written.
use match_engine.Prelude.{◌<>◌, ◌≡◌, refl, ◌⊎◌, inl, inr, true, false, Bool-cases, String}
use match_engine.Prelude.Result.{ok, err, Error, std_error, what_of, ◌>>=◌}
use match_engine.Double.{Double}
use match_engine.Order.{Order}
use match_engine.Json.{Json}
use match_engine.Serialization.Enums.{
  string_to_order_side, string_to_order_type, string_to_order_status,
}
use match_engine.Serialization.Times.{Calendar, string_to_time_point}
use match_engine.Serialization.Orders.{
  string_at, convert_string_to_double, read_order, deserialize_order,
}
use match_engine.Serialization.Members.{
  IsNumberAt, convert_string_to_double-IsNumberAt, assemble, assemble-cases,
}

module _ {J : Type 0} ⦃j : Json J⦄ where
  -- A string under a key, and what it is read as.
  abbrev pub IsWordAt : {A : Type 0} → J → String → (String → A) → A → Type 0
  IsWordAt root key read a = (text : String) × (string_at key root ≡ ok text) × (a ≡ read text)

module _ {D J : Type 0} ⦃d : Double D⦄ ⦃j : Json J⦄ ⦃c : Calendar⦄ where
  -- An order with the values of the eleven members of an object.
  pub record IsOrderAt (root : J) (o : Order D) : Type 0 where
    pub order_id : (j.get "orderId" root >>= j.as_uint) ≡ ok o.order_id
    pub user_id : (j.get "userId" root >>= j.as_uint64) ≡ ok o.user_id
    pub price : IsNumberAt root "price" o.price
    pub quantity : IsNumberAt root "quantity" o.quantity
    pub fee_rate : IsNumberAt root "feeRate" o.fee_rate
    pub order_side : IsWordAt root "orderSide" string_to_order_side o.order_side
    pub order_type : IsWordAt root "orderType" string_to_order_type o.order_type
    pub status : IsWordAt root "status" string_to_order_status o.status
    pub create_time : IsWordAt root "createTime" string_to_time_point o.create_time
    pub update_time : IsWordAt root "updateTime" string_to_time_point o.update_time
    pub filled_quantity : IsNumberAt root "filledQuantity" o.filled_quantity

  read_order-cases :
      (root : J)
      → ((o : Order D) × (read_order root ≡ ok o) × IsOrderAt root o)
        ⊎ (x : Error) × (read_order {D = D} root ≡ err x)
  unfolding read_order assemble
  read_order-cases root =
      let number = λ (key : String). convert_string_to_double {D = D} root key in
      elim (assemble-cases (j.get "orderId" root >>= j.as_uint)
        (j.get "userId" root >>= j.as_uint64) (number "price") (number "quantity")
        (number "feeRate") (string_at "orderSide" root) (string_at "orderType" root)
        (string_at "status" root) (string_at "createTime" root) (string_at "updateTime" root)
        (number "filledQuantity")) [
          | inr failed ↦ inr failed
          | inl
                (
                  o, side, type, status, create, update, made, id, user, p, q, f, s, s', t, t', u,
                  u', v, v', w, w', z,
                ) ↦
              inl (
                o,
                made,
                record {
                  order_id = id;
                  user_id = user;
                  price = convert_string_to_double-IsNumberAt root "price" o.price p;
                  quantity = convert_string_to_double-IsNumberAt root "quantity" o.quantity q;
                  fee_rate = convert_string_to_double-IsNumberAt root "feeRate" o.fee_rate f;
                  order_side = (side, s, s');
                  order_type = (type, t, t');
                  status = (status, u, u');
                  create_time = (create, v, v');
                  update_time = (update, w, w');
                  filled_quantity =
                      convert_string_to_double-IsNumberAt root "filledQuantity" o.filled_quantity z;
                },
              )
        ]

  -- `deserializeOrder` on any JSON value: it is no object, and the error says so; or the result is an order
  -- of which the four numbers are what `stod` reads of the strings that are there under their keys, and the
  -- other seven members are what the conversions give of `root[key]`, which need not be there; or the error
  -- is that of reading a member, with what failed in its text.
  pub deserialize_order_cases :
      (root : J)
      → ((j.is_object root ≡ false)
          × (deserialize_order {D = D} root
              ≡ err (std_error "deserializeOrder: JSON root is not an object")))
        ⊎ ((j.is_object root ≡ true)
            × ((o : Order D) × (deserialize_order root ≡ ok o) × IsOrderAt root o))
        ⊎ (j.is_object root ≡ true)
          × (x : Error) × (read_order {D = D} root ≡ err x)
          × (deserialize_order {D = D} root
              ≡ err (std_error ("Error deserializing Order: " <> what_of x)))
  unfolding deserialize_order
  deserialize_order_cases root = elim (Bool-cases (j.is_object root)) [
    | inr no_object ↦ inl (no_object, rw (deserialize_order, no_object) refl)
    | inl object ↦ elim (read_order-cases root) [
      | inl (o, made, typed) ↦
          inr (inl (object, (o, rw (deserialize_order, object, made) refl, typed)))
      | inr (x, failed) ↦ inr (inr (object, x, failed, rw (deserialize_order, object, failed) refl))
    ]
  ]
