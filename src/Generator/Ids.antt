-- ===== src/Generator/Ids.antt =====
-- The orders that the loop of `generateOrders` makes and sends, on a connection that has a handle.
use mathlib.Core.List.{append_assoc, append-nil}
use match_engine.Prelude.{
  ℕ, zero, suc, ◌+◌, ◌^◌, ◌<◌, ◌≡◌, refl, sym, ap, ◌∙◌, List, [], ◌∷◌, ◌++◌, map, arith, All,
}
use match_engine.Prelude.Result.{Result, ok, err}
use match_engine.Double.{Double}
use match_engine.Order.{Order, initial}
use match_engine.Json.{Json}
use match_engine.Serialization.Times.{Calendar}
use match_engine.Database.Connection.{Mysql, DbConnection}
use match_engine.Database.Reconnect.{holding, execute_query-holding}
use match_engine.Persistence.Statements.{insert_statement}
use match_engine.Persistence.Delivery.{IsHolding}
use match_engine.Generator.Orders.{
  Draws, Stoul, Generator, u32, create_random_order, encode_order, push_order, send_new_order,
  generate_loop,
}

-- The numbers behind `counter`, `left` of them.
abbrev pub counting : ℕ → ℕ → List ℕ
counting counter zero = []
counting counter (suc left) = (counter + 1) ∷ counting (counter + 1) left

module _ {D : Type 0} ⦃d : Double D⦄ where
  -- A new order: nothing is filled, and it belongs to the user of the same number.
  abbrev pub IsNew : Order D → Type 0
  IsNew o = (o.status ≡ initial) × (o.filled_quantity ≡ d.nought) × (o.user_id ≡ o.order_id)

  abbrev pub id_of : Order D → ℕ
  id_of o = o.order_id

module _ {D S : Type 0} (J : Type 0) ⦃d : Double D⦄ ⦃j : Json J⦄ ⦃c : Calendar⦄ ⦃p : Stoul⦄
    ⦃m : Mysql S⦄ where
  send_new_order_lem :
      (o : Order D) (g : Generator S)
      → IsHolding g.db
      → (db : DbConnection S) × IsHolding db
        × (send_new_order D J o g ≡ (ok tt, push_order D J o (record g { db = db })))
  unfolding send_new_order
  send_new_order_lem o g (handle, s, e) =
      let (b, s', e') = execute_query-holding (insert_statement o) handle s in
      (holding handle s', (handle, s', refl), rw (e, e') refl)

  -- One round of the loop: the order it makes is sent, and the loop goes on.
  pub generate_loop-step :
      (draws : Draws D) (number index : ℕ) (g : Generator S)
      → IsHolding g.db
      → let made = create_random_order draws index g.order_id_counter in
        (db : DbConnection S) × IsHolding db
        × (generate_loop D J draws (suc number) index g
            ≡ generate_loop D J draws number
                (suc index)
                (push_order D J made.1 (record g { order_id_counter = made.0; db = db })))
  unfolding generate_loop
  generate_loop-step draws number index g h =
      let made = create_random_order draws index g.order_id_counter in
      let (db, h', e) = send_new_order_lem made.1 (record g { order_id_counter = made.0 }) h in
      let goes_on : Result (Unit {0}) × Generator S → Result (Unit {0}) × Generator S = λ r.
        elim r.0 [ err x ↦ (err x, r.1) | ok u ↦ generate_loop D J draws number (suc index) r.1 ] in
      (db, h', ap goes_on e)

  -- On a connection that has a handle, and as long as the ids stay in 32 bits, the loop throws nothing.
  -- The texts it sends are those of as many new orders as there are rounds, their ids are the numbers
  -- behind the counter, and the counter ends at the last of them.
  pub generate_loop_orders :
      (draws : Draws D) (number index : ℕ) (g : Generator S)
      → IsHolding g.db
      → g.order_id_counter + number < 2 ^ 32
      → let g' = (generate_loop D J draws number index g).1 in
        (orders : List (Order D)) × ((generate_loop D J draws number index g).0 ≡ ok tt)
        × (g'.order_id_counter ≡ g.order_id_counter + number)
        × (g'.sent ≡ g.sent ++ map (encode_order J) orders)
        × (map id_of orders ≡ counting g.order_id_counter number)
        × All IsNew orders
  unfolding generate_loop create_random_order push_order
  generate_loop_orders draws zero index g h small =
      ([], refl, ground arith, sym (append-nil g.sent), refl, tt)
  generate_loop_orders draws (suc number) index g h small =
      let (counter, o) = create_random_order draws index g.order_id_counter in
      let next : u32 (g.order_id_counter + 1) ≡ g.order_id_counter + 1 = omega arith in
      let (db, h', e) = generate_loop-step draws number index g h in
      let g' = push_order D J o (record g { order_id_counter = counter; db = db }) in
      let (orders, fine, last, texts, ids, new) =
        generate_loop_orders draws number (suc index) g' h' (rw next (omega arith)) in
      (
        o ∷ orders,
        ap (λ r. r.0) e ∙ fine,
        ap (λ r. r.1.order_id_counter) e ∙ last ∙ omega arith,
        ap (λ r. r.1.sent) e
            ∙ texts
            ∙ append_assoc g.sent (encode_order J o ∷ []) (map (encode_order J) orders),
        ap (λ l. u32 (g.order_id_counter + 1) ∷ l) ids ∙ ap (λ n. n ∷ counting n number) next,
        ((refl, refl, refl), new),
      )
