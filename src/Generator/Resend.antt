-- ===== src/Generator/Resend.antt =====
-- `generateOrders` as a whole: the orders of the database that it sends again, and the new ones.
use mathlib.Core.List.{append_assoc, append-nil}
use match_engine.Prelude.{
  ℕ, ◌+◌, ◌^◌, ◌<◌, ◌≡◌, refl, sym, String, ap, ◌∙◌, ◌⊎◌, inl, inr, List, [], ◌∷◌, ◌++◌, map, All,
}
use match_engine.Prelude.Result.{Result, ok, Result-cases}
use match_engine.Double.{Double}
use match_engine.Order.{Order}
use match_engine.Json.{Json}
use match_engine.Serialization.Times.{Calendar}
use match_engine.Database.Connection.{Mysql, DbConnection, Row, execute_query_with_result}
use match_engine.Database.Reconnect.{holding, execute_query_with_result-holding}
use match_engine.Persistence.Delivery.{IsHolding}
use match_engine.Generator.Orders.{
  Draws, Stoul, Generator, load_statement, max_id_statement, read_row_order, max_id_of,
  encode_order, push_order, resend_rows, load_orders_from_database, get_max_order_id,
  generate_orders,
}
use match_engine.Generator.Rows.{
  IsRowOrder, IsHighest, highest-max_id_of, read_row_order-IsRowOrder, not_failed,
}
use match_engine.Generator.Ids.{counting, IsNew, id_of, generate_loop_orders}

module _ {D : Type 0} ⦃d : Double D⦄ ⦃c : Calendar⦄ ⦃p : Stoul⦄ where
  -- Each row with its order.
  abbrev pub AllRead : List Row → List (Order D) → Type 0
  AllRead [] [] = Unit
  AllRead [] (o ∷ orders) = ⊥
  AllRead (row ∷ rows) [] = ⊥
  AllRead (row ∷ rows) (o ∷ orders) = IsRowOrder row o × AllRead rows orders

  -- The rows that come before the first that is not an order, if there is one, with these orders.
  abbrev pub IsRead : List Row → List (Order D) → Type 0
  IsRead rows orders =
      (read : List Row) × (unread : List Row) × (rows ≡ read ++ unread)
      × AllRead read orders
      × ((unread ≡ [])
          ⊎ (row : Row) × (rest : List Row) × (unread ≡ row ∷ rest)
            × (¬ ((o : Order D) × IsRowOrder row o)))

module _ {D : Type 0} (J : Type 0) ⦃d : Double D⦄ ⦃j : Json J⦄ ⦃c : Calendar⦄ where
  abbrev pub texts : List (Order D) → List String
  texts = map (encode_order J)

module _ {S : Type 0} ⦃m : Mysql S⦄ where
  query-IsHolding :
      (text : String) (rows : Result (List Row)) (db db' : DbConnection S)
      → IsHolding db
      → execute_query_with_result text db ≡ (rows, db')
      → IsHolding db'
  query-IsHolding text rows db db' (handle, s, e) h =
      let (rows', s', e') = execute_query_with_result-holding text handle s in
      let same : db' ≡ holding handle s' =
        ap (λ r. r.1) (sym h ∙ ap (execute_query_with_result text) e ∙ e') in
      (handle, s', same)

module _ (D J : Type 0) {S : Type 0} ⦃d : Double D⦄ ⦃j : Json J⦄ ⦃c : Calendar⦄ ⦃p : Stoul⦄
    ⦃m : Mysql S⦄ where
  get_max_order_id_lem :
      (rows : List Row) (db : DbConnection S) (g : Generator S)
      → execute_query_with_result max_id_statement g.db ≡ (ok rows, db)
      → get_max_order_id D J g ≡ (ok (max_id_of rows), record g { db = db })
  unfolding get_max_order_id
  get_max_order_id_lem rows db g e = rw e refl

module _ {D S : Type 0} (J : Type 0) ⦃d : Double D⦄ ⦃j : Json J⦄ ⦃c : Calendar⦄ ⦃p : Stoul⦄
    ⦃m : Mysql S⦄ where
  resend_rows-IsRead :
      (rows : List Row) (g : Generator S)
      → (orders : List (Order D)) × IsRead rows orders
        × (resend_rows D J rows g ≡ record g { sent = g.sent ++ texts J orders })
  unfolding resend_rows push_order
  resend_rows-IsRead [] g =
      ([], ([], [], refl, tt, inl refl), ap (λ t. record g { sent = t }) (sym (append-nil g.sent)))
  resend_rows-IsRead (row ∷ rows) g = elim (Result-cases (read_row_order {D = D} row)) [
    | inr (e, h) ↦ (
      [],
      ([], row ∷ rows, refl, tt, inr (row, rows, refl, λ (o, r). not_failed row o e r h)),
      rw (resend_rows, h) (ap (λ t. record g { sent = t }) (sym (append-nil g.sent))),
    )
    | inl (o, h) ↦
        let g' = push_order D J o g in
        let (orders, (read, unread, split, same, ends), sent) = resend_rows-IsRead rows g' in
        (
          o ∷ orders,
          (
            row ∷ read,
            unread,
            ap (λ l. row ∷ l) split,
            (read_row_order-IsRowOrder row o h, same),
            ends,
          ),
          rw (resend_rows, h)
              (sent
                ∙ ap (λ t. record g { sent = t })
                    (append_assoc g.sent (encode_order J o ∷ []) (texts J orders))),
        )
  ]

  load_orders-IsRead :
      (rows : List Row) (db : DbConnection S) (g : Generator S)
      → execute_query_with_result load_statement g.db ≡ (ok rows, db)
      → (orders : List (Order D)) × IsRead rows orders
        × (load_orders_from_database D J g ≡ record g { db = db; sent = g.sent ++ texts J orders })
  unfolding load_orders_from_database
  load_orders-IsRead rows db g e =
      let (orders, read, sent) = resend_rows-IsRead rows (record g { db = db }) in
      (orders, read, rw e sent)

  -- On a connection that has a handle, if the first query gives the rows `stored` and the second, for
  -- the highest id, the rows `highest`, and the ids that follow stay in 32 bits, `generateOrders` throws
  -- nothing. It first sends the orders that the stored rows say, column by column, up to the first row
  -- that says none, and then `number` new orders, whose ids are the numbers behind `top`: the low 32 bits
  -- of the highest id, or 10000 if there is none that can be read.
  pub generate_orders-IsRead :
      (draws : Draws D) (number : ℕ) (g : Generator S) (stored highest : List Row) (top : ℕ)
      (db db' : DbConnection S)
      → IsHolding g.db
      → execute_query_with_result load_statement g.db ≡ (ok stored, db)
      → execute_query_with_result max_id_statement db ≡ (ok highest, db')
      → IsHighest highest top
      → top + number < 2 ^ 32
      → let (result, g') = generate_orders D J draws number g in
        (resent orders : List (Order D)) × (result ≡ ok tt)
        × IsRead stored resent
        × (g'.sent ≡ g.sent ++ (texts J resent ++ texts J orders))
        × (map id_of orders ≡ counting top number)
        × All IsNew orders
  unfolding generate_orders
  generate_orders-IsRead draws number g stored highest top db db' h first second is_top small =
      let h1 = query-IsHolding load_statement (ok stored) g.db db h first in
      let h2 = query-IsHolding max_id_statement (ok highest) db db' h1 second in
      let (resent, read, loaded) = load_orders-IsRead stored db g first in
      let g1 : Generator S = record g { db = db; sent = g.sent ++ texts J resent } in
      let got =
        get_max_order_id_lem D J highest db' g1 second
        ∙ ap (λ n. (ok n, record g1 { db = db' })) (highest-max_id_of highest top is_top) in
      let g2 : Generator S = record g1 { order_id_counter = top; db = db' } in
      let (orders, fine, last, sent, ids, new) =
        generate_loop_orders J draws number 0 g2 h2 small in
      rw (loaded, got)
        (
          resent,
          orders,
          fine,
          read,
          sent ∙ append_assoc g.sent (texts J resent) (texts J orders),
          ids,
          new,
        )
