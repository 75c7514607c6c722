-- ===== src/Serialization/Members.antt =====
-- The members that `deserializeOrder` of src/Serialization.cpp reads.
use match_engine.Prelude.{
  ℕ, ◌<>◌, ◌≡◌, refl, sym, ◌∙◌, ◌⊎◌, inl, inr, true, Bool-cases, String, some, arith,
}
use match_engine.Prelude.Result.{Result, ok, err, Error, std_error, ◌>>=◌, Result-cases}
use match_engine.Double.{Double}
use match_engine.Order.{Order}
use match_engine.Json.{Json}
use match_engine.Serialization.Enums.{
  string_to_order_side, string_to_order_type, string_to_order_status,
}
use match_engine.Serialization.Times.{Calendar, string_to_time_point}
use match_engine.Serialization.Orders.{read_double, convert_string_to_double}

module _ {D : Type 0} ⦃d : Double D⦄ where
  read_double-ok : (key text : String) (a : D) → read_double key text ≡ ok a → d.stod text ≡ some a
  unfolding read_double
  read_double-ok key text a e = ground arith

missing : {D : Type 0} → (key : String) → Result D
missing key = err (std_error ("Key is missing or not a string in JSON object: " <> key))

module _ {D J : Type 0} ⦃d : Double D⦄ ⦃j : Json J⦄ where
  -- The member is there, it is a string, and `std::stod` reads it.
  abbrev pub IsNumberAt : J → String → D → Type 0
  IsNumberAt root key a =
      (v : J) × (text : String) × (j.is_member key root ≡ true)
      × (j.get key root ≡ ok v)
      × (j.is_string v ≡ true)
      × (j.as_string v ≡ ok text)
      × (d.stod text ≡ some a)

  pub convert_string_to_double-IsNumberAt :
      (root : J) (key : String) (a : D)
      → convert_string_to_double root key ≡ ok a
      → IsNumberAt root key a
  unfolding convert_string_to_double missing
  convert_string_to_double-IsNumberAt root key a e = elim (Bool-cases (j.is_member key root)) [
    | inr m ↦
        let fails : convert_string_to_double {D = D} root key ≡ missing key =
          rw (convert_string_to_double, m) refl in
        cc
    | inl m ↦ elim (Result-cases (j.get key root)) [
      | inr (x, g) ↦
          let fails : convert_string_to_double {D = D} root key ≡ err x =
            rw (convert_string_to_double, m, g) refl in
          cc
      | inl (v, g) ↦ elim (Bool-cases (j.is_string v)) [
        | inr t ↦
            let fails : convert_string_to_double {D = D} root key ≡ missing key =
              rw (convert_string_to_double, m, g, t) refl in
            cc
        | inl t ↦ elim (Result-cases (j.as_string v)) [
          | inr (x, s) ↦
              let fails : convert_string_to_double {D = D} root key ≡ err x =
                rw (convert_string_to_double, m, g, t, s) refl in
              cc
          | inl (text, s) ↦
              let reads : convert_string_to_double root key ≡ read_double key text =
                rw (convert_string_to_double, m, g, t, s) refl in
              (v, text, m, g, t, s, read_double-ok key text a (sym reads ∙ e))
        ]
      ]
    ]
  ]

module _ {D : Type 0} ⦃c : Calendar⦄ where
  -- The members of an order, as they are read one after the other.
  unfoldable pub assemble :
      (order_id user_id : Result ℕ) (price quantity fee_rate : Result D)
      (order_side order_type status create_time update_time : Result String)
      (filled_quantity : Result D)
      → Result (Order D)
  assemble r_id r_user r_price r_quantity r_fee r_side r_type r_status r_create r_update r_filled =
      do
        order_id ← r_id
        user_id ← r_user
        price ← r_price
        quantity ← r_quantity
        fee_rate ← r_fee
        order_side ← r_side
        order_type ← r_type
        status ← r_status
        create_time ← r_create
        update_time ← r_update
        filled_quantity ← r_filled
        ok (record {
          order_id = order_id;
          user_id = user_id;
          price = price;
          quantity = quantity;
          fee_rate = fee_rate;
          order_side = string_to_order_side order_side;
          order_type = string_to_order_type order_type;
          status = string_to_order_status status;
          create_time = string_to_time_point create_time;
          update_time = string_to_time_point update_time;
          filled_quantity = filled_quantity;
        })

  pub assemble-cases :
      (r_id r_user : Result ℕ) (r_price r_quantity r_fee : Result D)
      (r_side r_type r_status r_create r_update : Result String) (r_filled : Result D)
      → let made =
          assemble r_id r_user r_price r_quantity r_fee r_side r_type r_status r_create r_update
            r_filled in
        ((o : Order D) × (side : String) × (type : String) × (status : String) × (create : String)
          × (update : String) × (made ≡ ok o)
          × (r_id ≡ ok o.order_id)
          × (r_user ≡ ok o.user_id)
          × (r_price ≡ ok o.price)
          × (r_quantity ≡ ok o.quantity)
          × (r_fee ≡ ok o.fee_rate)
          × (r_side ≡ ok side)
          × (o.order_side ≡ string_to_order_side side)
          × (r_type ≡ ok type)
          × (o.order_type ≡ string_to_order_type type)
          × (r_status ≡ ok status)
          × (o.status ≡ string_to_order_status status)
          × (r_create ≡ ok create)
          × (o.create_time ≡ string_to_time_point create)
          × (r_update ≡ ok update)
          × (o.update_time ≡ string_to_time_point update)
          × (r_filled ≡ ok o.filled_quantity))
        ⊎ (x : Error) × (made ≡ err x)
  unfolding assemble
  assemble-cases (ok a) (ok b) (ok p) (ok q) (ok f) (ok s) (ok t) (ok u) (ok v) (ok w) (ok z) =
      inl (
        _, s, t, u, v, w, refl, refl, refl, refl, refl, refl, refl, refl, refl, refl, refl, refl,
        refl, refl, refl, refl, refl,
      )
  assemble-cases (err x) _ _ _ _ _ _ _ _ _ _ = inr (x, refl)
  assemble-cases _ (err x) _ _ _ _ _ _ _ _ _ = inr (x, refl)
  assemble-cases (ok a) (ok b) (err x) _ _ _ _ _ _ _ _ = inr (x, refl)
  assemble-cases (ok a) (ok b) (ok p) (err x) _ _ _ _ _ _ _ = inr (x, refl)
  assemble-cases (ok a) (ok b) (ok p) (ok q) (err x) _ _ _ _ _ _ = inr (x, refl)
  assemble-cases (ok a) (ok b) (ok p) (ok q) (ok f) (err x) _ _ _ _ _ = inr (x, refl)
  assemble-cases (ok a) (ok b) (ok p) (ok q) (ok f) (ok s) (err x) _ _ _ _ = inr (x, refl)
  assemble-cases (ok a) (ok b) (ok p) (ok q) (ok f) (ok s) (ok t) (err x) _ _ _ = inr (x, refl)
  assemble-cases (ok a) (ok b) (ok p) (ok q) (ok f) (ok s) (ok t) (ok u) (err x) _ _ = inr (x, refl)
  assemble-cases (ok a) (ok b) (ok p) (ok q) (ok f) (ok s) (ok t) (ok u) (ok v) (err x) _ =
      inr (x, refl)
  assemble-cases (ok a) (ok b) (ok p) (ok q) (ok f) (ok s) (ok t) (ok u) (ok v) (ok w) (err x) =
      inr (x, refl)
