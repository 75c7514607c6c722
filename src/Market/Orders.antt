-- ===== src/Market/Orders.antt =====
-- The orders of the loop in src/OrderGenerator.cpp, and what `run` of src/MatchingEngine.cpp reads of their
-- texts.
use mathlib.Core.List.{append_assoc, append-nil}
use match_engine.Prelude.{
  ℕ, zero, suc, ◌+◌, ◌^◌, ◌<◌, ◌≡◌, ◌≢◌, refl, sym, ap, ◌∙◌, String, some, List, [], ◌∷◌, ◌++◌, map,
  arith, All,
}
use match_engine.Double.{Double, to_string}
use match_engine.Order.{Order}
use match_engine.Json.{Json, IsJson}
use match_engine.Serialization.Times.{Calendar, IsCalendar}
use match_engine.Serialization.RoundTrip.{FitsOrder, reread_order}
use match_engine.Database.Connection.{Mysql}
use match_engine.Persistence.Delivery.{IsHolding}
use match_engine.Generator.Orders.{
  Draws, Stoul, Generator, create_random_order, encode_order, push_order, generate_loop,
}
use match_engine.Generator.Ids.{generate_loop-step}
use match_engine.Generator.Feed.{decode_order-encode_order, encode_order-ne-empty}
use match_engine.Engine.Run.{Received, message}
use match_engine.Engine.Totals.{Distinct}
use match_engine.Engine.Arrivals.{arrivals}

module _ {D : Type 0} ⦃d : Double D⦄ (draws : Draws D) where
  -- The order of a round, as it is made.
  abbrev pub new_order : (index counter : ℕ) → Order D
  new_order index counter = (create_random_order draws index counter).1

  abbrev pub new_orders : (number index counter : ℕ) → List (Order D)
  new_orders zero index counter = []
  new_orders (suc number) index counter =
      new_order index counter
      ∷ new_orders number (suc index) (create_random_order draws index counter).0

module _ {D S : Type 0} (J : Type 0) ⦃d : Double D⦄ ⦃j : Json J⦄ ⦃c : Calendar⦄ ⦃p : Stoul⦄
    ⦃m : Mysql S⦄ (draws : Draws D) where
  -- The loop sends their texts.
  pub generate_loop-sent :
      (number index : ℕ) (g : Generator S)
      → IsHolding g.db
      → (generate_loop D J draws number index g).1.sent
        ≡ g.sent ++ map (encode_order J) (new_orders draws number index g.order_id_counter)
  unfolding generate_loop push_order
  generate_loop-sent zero index g h = sym (append-nil g.sent)
  generate_loop-sent (suc number) index g h =
      let (counter, o) = create_random_order draws index g.order_id_counter in
      let (db, h', e) = generate_loop-step J draws number index g h in
      let g' = push_order D J o (record g { order_id_counter = counter; db = db }) in
      ap (λ r. r.1.sent) e
      ∙ generate_loop-sent number (suc index) g' h'
      ∙ append_assoc g.sent (encode_order J o ∷ [])
          (map (encode_order J) (new_orders draws number (suc index) counter))

-- The texts as `recv` gives them, with the reading of the steady clock for each.
abbrev pub delivered : (clock : ℕ → ℕ) → (index : ℕ) → List String → List (ℕ × Received)
delivered clock index [] = []
delivered clock index (text ∷ rest) = (clock index, message text) ∷ delivered clock (suc index) rest

module _ {D J : Type 0} ⦃d : Double D⦄ ⦃j : Json J⦄ ⦃c : Calendar⦄ (laws : IsJson J)
    (times : IsCalendar) (reread : D → D)
    (stod_text : (a : D) → d.stod (to_string a) ≡ some (reread a)) (draws : Draws D)
    (clock : ℕ → ℕ) where
  abbrev pub reread_at : (index counter : ℕ) → Order D
  reread_at index counter = reread_order laws times reread stod_text (new_order draws index counter)

  -- The orders as the engine reads them.
  abbrev pub accepted : (number index counter : ℕ) → List (ℕ × Order D)
  accepted zero index counter = []
  accepted (suc number) index counter =
      (clock index, reread_at index counter)
      ∷ accepted number (suc index) (create_random_order draws index counter).0

  next_id :
      (index counter : ℕ)
      → counter + 1 < 2 ^ 32
      → (create_random_order draws index counter).0 ≡ counter + 1
  unfolding create_random_order
  next_id index counter h = omega arith

  own_id :
      (index counter : ℕ)
      → (new_order draws index counter).order_id ≡ (create_random_order draws index counter).0
  unfolding create_random_order
  own_id index counter = refl

  new_order-FitsOrder : (index counter : ℕ) → FitsOrder (new_order draws index counter)
  unfolding create_random_order
  new_order-FitsOrder index counter = (omega arith, omega arith)

  arrivals_first :
      (now : ℕ) (o : Order D) (rest : List (ℕ × Received))
      → FitsOrder o
      → arrivals D J ((now, message (encode_order J o)) ∷ rest)
        ≡ (now, reread_order laws times reread stod_text o) ∷ arrivals D J rest
  arrivals_first now o rest f =
      rw
        (
          encode_order-ne-empty laws times reread stod_text o,
          decode_order-encode_order laws times reread stod_text o f,
        )
        refl

  pub arrivals-delivered :
      (number index counter : ℕ)
      → arrivals D J
          (delivered clock index (map (encode_order J) (new_orders draws number index counter)))
        ≡ accepted number index counter
  arrivals-delivered zero index counter = refl
  arrivals-delivered (suc number) index counter =
      let next = (create_random_order draws index counter).0 in
      let texts = map (encode_order J) (new_orders draws number (suc index) next) in
      arrivals_first (clock index) (new_order draws index counter)
        (delivered clock (suc index) texts) (new_order-FitsOrder index counter)
      ∙ ap (λ l. (clock index, reread_at index counter) ∷ l)
          (arrivals-delivered number (suc index) next)

  pub accepted-FitsOrder :
      (number index counter : ℕ) → All (λ (now, o). FitsOrder o) (accepted number index counter)
  accepted-FitsOrder zero index counter = tt
  accepted-FitsOrder (suc number) index counter = (
    new_order-FitsOrder index counter,
    accepted-FitsOrder number (suc index) (create_random_order draws index counter).0,
  )

  ids_above :
      (number index counter low : ℕ)
      → counter + number < 2 ^ 32
      → low < counter + 1
      → All (λ (now, o). low ≢ o.order_id) (accepted number index counter)
  ids_above zero index counter low h l = tt
  ids_above (suc number) index counter low h l =
      let next = next_id index counter (omega arith) in
      (
        λ same. omega (arith, same, own_id index counter, next),
        ids_above number (suc index) (create_random_order draws index counter).0 low
            (omega (arith, next)) (omega (arith, next)),
      )

  -- Their ids differ.
  pub accepted-Distinct :
      (number index counter : ℕ)
      → counter + number < 2 ^ 32
      → Distinct (accepted number index counter)
  accepted-Distinct zero index counter h = tt
  accepted-Distinct (suc number) index counter h =
      let next = next_id index counter (omega arith) in
      let after = (create_random_order draws index counter).0 in
      (
        ids_above number (suc index) after (reread_at index counter).order_id (omega (arith, next))
            (omega (arith, own_id index counter)),
        accepted-Distinct number (suc index) after (omega (arith, next)),
      )
