-- ===== src/Generator/Rows.antt =====
-- The rows of the table of orders as `loadOrdersFromDatabase` and `getMaxOrderId` of
-- src/OrderGenerator.cpp read them.
use match_engine.Prelude.{
  ℕ, ◌%◌, ◌^◌, ◌≡◌, refl, ap, sym, subst, ◌⊎◌, inl, inr, String, some, List, [], ◌∷◌,
}
use match_engine.Prelude.Result.{ok, err, Error, ◌>>=◌, Result-cases}
use match_engine.Double.{Double}
use match_engine.Order.{Order}
use match_engine.Json.{last_of}
use match_engine.Serialization.Enums.{
  string_to_order_side, string_to_order_type, string_to_order_status,
}
use match_engine.Serialization.Times.{Calendar, string_to_time_point}
use match_engine.Database.Connection.{Row}
use match_engine.Generator.Columns.{
  UlongAt, DoubleAt, column_text, column-last, ok_injective, bind-ok, ulong_at, ulong-UlongAt,
  double_at, double-DoubleAt,
}
use match_engine.Generator.Orders.{Stoul, column, read_ulong, read_stod, read_row_order, max_id_of}

-- The eleven columns are there, and the order has what they say.
pub record IsRowOrder {D : Type 0} ⦃d : Double D⦄ ⦃c : Calendar⦄ ⦃p : Stoul⦄ (row : Row)
    (o : Order D) : Type 0 where
  id : ℕ
  order_side : String
  order_type : String
  status : String
  create_time : String
  update_time : String
  order_id_at : UlongAt row "order_id" id
  user_id_at : UlongAt row "user_id" o.user_id
  price_at : DoubleAt row "price" o.price
  quantity_at : DoubleAt row "quantity" o.quantity
  fee_rate_at : DoubleAt row "fee_rate" o.fee_rate
  filled_quantity_at : DoubleAt row "filled_quantity" o.filled_quantity
  order_side_at : last_of "order_side" row ≡ some order_side
  order_type_at : last_of "order_type" row ≡ some order_type
  status_at : last_of "status" row ≡ some status
  create_time_at : last_of "create_time" row ≡ some create_time
  update_time_at : last_of "update_time" row ≡ some update_time
  others : o ≡ record o {
    order_id = id % 2 ^ 32;
    order_side = string_to_order_side order_side;
    order_type = string_to_order_type order_type;
    status = string_to_order_status status;
    create_time = string_to_time_point create_time;
    update_time = string_to_time_point update_time;
  }

-- The first row has a highest id that can be read, of which 32 bits are kept, or there is none, and the
-- number is 10000.
abbrev pub IsHighest : ⦃p : Stoul⦄ → List Row → ℕ → Type 0
IsHighest rows n =
    ((row : Row) × (rest : List Row) × (id : ℕ) × (rows ≡ row ∷ rest)
      × UlongAt row "max_order_id" id
      × (n ≡ id % 2 ^ 32))
    ⊎ (¬ (
        (row : Row) × (rest : List Row) × (id : ℕ) × (rows ≡ row ∷ rest)
        × UlongAt row "max_order_id" id))
      × (n ≡ 10000)

module _ ⦃p : Stoul⦄ where
  pub highest-max_id_of : (rows : List Row) (n : ℕ) → IsHighest rows n → max_id_of rows ≡ n
  unfolding max_id_of
  highest-max_id_of [] n (inl (row, rest, id, e, at, is)) = cc
  highest-max_id_of [] n (inr (none_there, is)) = sym is
  highest-max_id_of (row ∷ rows) n (inl (row', rest, id, e, at, is)) =
      let same : row' ≡ row = cc in
      let there =
        ulong_at row "max_order_id" id (subst (λ r. UlongAt r "max_order_id" id) same at) in
      rw (max_id_of, there) (sym is)
  highest-max_id_of (row ∷ rows) n (inr (none_there, is)) =
      elim (Result-cases (column "max_order_id" row >>= read_ulong)) [
        | inl (id, e) ↦
            absurd (none_there (row, rows, id, refl, ulong-UlongAt row "max_order_id" id e))
        | inr (x, e) ↦ rw (max_id_of, e) (sym is)
      ]

module _ {D : Type 0} ⦃d : Double D⦄ ⦃c : Calendar⦄ ⦃p : Stoul⦄ where
  -- `read_row_order` gives only what the row says,
  pub read_row_order-IsRowOrder :
      (row : Row) (o : Order D) → read_row_order row ≡ ok o → IsRowOrder row o
  unfolding read_row_order
  read_row_order-IsRowOrder row o e =
      let (id, e0, k0) = bind-ok (column "order_id" row >>= read_ulong) _ o e in
      let (user, e1, k1) = bind-ok (column "user_id" row >>= read_ulong) _ o k0 in
      let (price, e2, k2) = bind-ok (column "price" row >>= read_stod) _ o k1 in
      let (quantity, e3, k3) = bind-ok (column "quantity" row >>= read_stod) _ o k2 in
      let (fee, e4, k4) = bind-ok (column "fee_rate" row >>= read_stod) _ o k3 in
      let (side, e5, k5) = bind-ok (column "order_side" row) _ o k4 in
      let (type, e6, k6) = bind-ok (column "order_type" row) _ o k5 in
      let (status, e7, k7) = bind-ok (column "status" row) _ o k6 in
      let (filled, e8, k8) = bind-ok (column "filled_quantity" row >>= read_stod) _ o k7 in
      let (create, e9, k9) = bind-ok (column "create_time" row) _ o k8 in
      let (update, e10, k10) = bind-ok (column "update_time" row) _ o k9 in
      let made : Order D = record {
        order_id = id % 2 ^ 32;
        user_id = user;
        price = price;
        quantity = quantity;
        fee_rate = fee;
        order_side = string_to_order_side side;
        order_type = string_to_order_type type;
        status = string_to_order_status status;
        create_time = string_to_time_point create;
        update_time = string_to_time_point update;
        filled_quantity = filled;
      } in
      let same = ok_injective made o k10 in
      subst (λ o. IsRowOrder row o) same
        (record {
          id = id;
          order_side = side;
          order_type = type;
          status = status;
          create_time = create;
          update_time = update;
          order_id_at = ulong-UlongAt row "order_id" id e0;
          user_id_at = ulong-UlongAt row "user_id" user e1;
          price_at = double-DoubleAt row "price" price e2;
          quantity_at = double-DoubleAt row "quantity" quantity e3;
          fee_rate_at = double-DoubleAt row "fee_rate" fee e4;
          filled_quantity_at = double-DoubleAt row "filled_quantity" filled e8;
          order_side_at = column-last "order_side" side row e5;
          order_type_at = column-last "order_type" type row e6;
          status_at = column-last "status" status row e7;
          create_time_at = column-last "create_time" create row e9;
          update_time_at = column-last "update_time" update row e10;
          others = refl;
        })

  -- and all that it says.
  read_row_order_of : (row : Row) (o : Order D) → IsRowOrder row o → read_row_order row ≡ ok o
  unfolding read_row_order
  read_row_order_of row o r =
      rw
        (
          ulong_at row "order_id" r.id r.order_id_at,
          ulong_at row "user_id" o.user_id r.user_id_at,
          double_at row "price" o.price r.price_at,
          double_at row "quantity" o.quantity r.quantity_at,
          double_at row "fee_rate" o.fee_rate r.fee_rate_at,
          column_text "order_side" r.order_side row r.order_side_at,
          column_text "order_type" r.order_type row r.order_type_at,
          column_text "status" r.status row r.status_at,
          double_at row "filled_quantity" o.filled_quantity r.filled_quantity_at,
          column_text "create_time" r.create_time row r.create_time_at,
          column_text "update_time" r.update_time row r.update_time_at,
        )
        (ap (λ (o : Order D). ok o) (sym r.others))

  pub not_failed :
      (row : Row) (o : Order D) (e : Error)
      → IsRowOrder row o
      → read_row_order {D = D} row ≡ err e
      → ⊥
  not_failed row o e r h = let there = read_row_order_of row o r in cc
