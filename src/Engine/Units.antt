-- ===== src/Engine/Units.antt =====
-- The units of an order of Engine/Process.antt: those of the books and of the trades, before and after.
use match_engine.Prelude.{
  ℕ, ◌+◌, ◌*◌, ◌<◌, ◌≡◌, ◌≢◌, refl, ap, sym, subst, true, false, inl, inr, [], ◌∷◌, ◌++◌, arith,
  All, Bool-cases,
}
use match_engine.Double.{Double, IsRanked, IsExact}
use match_engine.Order.{Order}
use match_engine.OrderedMap.{update}
use match_engine.Engine.Trade.{Env}
use match_engine.Engine.Match.{Level, Book, wants_more, match_buy_orders, match_sell_orders}
use match_engine.Engine.Book.{put_order, level_of, add_order_to_book}
use match_engine.Engine.Process.{Engine, is_buy, settle, process_order}
use match_engine.Engine.Exact.{IsLive, remaining}
use match_engine.Engine.Levels.{open_units}
use match_engine.Engine.Sweep.{open_book, eligible-le}
use match_engine.Engine.Invariant.{IsValid, IsAdmissible}
use match_engine.Engine.Settle.{settle_cases, process_order-buy, process_order-sell}
use match_engine.Engine.Safety.{match_buy_orders-SameTerms, match_sell_orders-SameTerms}
use match_engine.Engine.Sides.{above, match_buy_orders-outcome, match_sell_orders-outcome}
use match_engine.Engine.Messages.{traded_units, traded_units-append}
use match_engine.Engine.Trading.{match_buy_orders_fill, match_sell_orders_fill}
use match_engine.Engine.Entries.{AllEntries}

-- No order of a book has this id.
abbrev pub IsOther : ℕ → {D : Type 0} → ℕ → Order D → Type 0
IsOther id j o = j ≢ id

module _ {D : Type 0} where
  abbrev pub Lacks : ℕ → Book D → Type 0
  Lacks id = AllEntries (IsOther id)

  abbrev pub IsFresh : ℕ → Engine D → Type 0
  IsFresh id e = Lacks id e.buy_orders × Lacks id e.sell_orders

module _ {D : Type 0} ⦃d : Double D⦄ (x : IsExact D) where
  put_order-units :
      (o : Order D) (level : Level D)
      → All (λ (id, a). id ≢ o.order_id) level
      → open_units x (put_order o level) ≡ remaining x o + open_units x level
  unfolding put_order update
  put_order-units o [] h = omega arith
  put_order-units o ((id, a) ∷ level) (other, h) = ground (arith, put_order-units o level h)

  add_order_to_book-units :
      (o : Order D) (book : Book D)
      → Lacks o.order_id book
      → open_book x (add_order_to_book o book) ≡ remaining x o + open_book x book
  unfolding add_order_to_book update level_of
  add_order_to_book-units o [] h = omega (arith, put_order-units o [] tt)
  add_order_to_book-units o ((price, level) ∷ book) (l, h) =
      let ih = add_order_to_book-units o book h in
      elim (Bool-cases (d.lt o.price price)) [
        | inl b ↦ rw b (omega (arith, put_order-units o [] tt))
        | inr b ↦ elim (Bool-cases (d.lt price o.price)) [
          | inl b' ↦ rw (b, b') (omega (arith, ih))
          | inr b' ↦ rw (b, b') (omega (arith, put_order-units o level l))
        ]
      ]

  settle-units :
      (o : Order D) (own : Book D)
      → IsLive x o
      → 0 < x.units o.quantity
      → Lacks o.order_id own
      → open_book x (settle o own).own ≡ remaining x o + open_book x own
  settle-units o own v pos h = elim (settle_cases x o own v pos) [
    | inl (more, e) ↦ rw e (add_order_to_book-units o own h)
    | inr (full, e) ↦ rw e (omega (arith, full))
  ]

  settle-traded : (o : Order D) (own : Book D) → traded_units x (settle o own).sent ≡ 0
  unfolding settle
  settle-traded o own = elim (Bool-cases (d.eq o.filled_quantity d.nought)) [
    | inl e ↦ rw e refl
    | inr e ↦ elim (Bool-cases (wants_more o)) [
      | inl e' ↦ rw (e, e') refl
      | inr e' ↦ rw (e, e') refl
    ]
  ]

  -- The units in both books, and those of each trade twice: each belongs to two orders.
  abbrev pub accounted : Engine D → ℕ
  accounted e = open_book x e.buy_orders + open_book x e.sell_orders + 2 * traded_units x e.results

module _ {D : Type 0} ⦃d : Double D⦄ (k : IsRanked D) (x : IsExact D) where
  Lacks-equal : (a b : ℕ) (own : Book D) → b ≡ a → Lacks a own → Lacks b own
  Lacks-equal a b own e h = subst (λ id. Lacks id own) (sym e) h

  buy-accounted :
      (env : Env) (now : ℕ) (order : Order D) (e : Engine D)
      → is_buy order.order_side ≡ true
      → IsAdmissible k x order
      → IsValid k x e
      → Lacks order.order_id e.buy_orders
      → accounted x (process_order env now order e) ≡ accounted x e + remaining x order
  buy-accounted env now order e b a v h =
      let m = match_buy_orders env e.trades order e.sell_orders in
      let s = settle m.order e.buy_orders in
      let same = match_buy_orders-SameTerms env e.trades order e.sell_orders in
      let id : m.order.order_id ≡ order.order_id = ap (λ (o : Order D). o.order_id) same in
      let size : m.order.quantity ≡ order.quantity = ap (λ (o : Order D). o.quantity) same in
      let (left, out) =
        match_buy_orders-outcome k x false env e.trades order e.sell_orders a.price_known a.live
          v.sells in
      let fill = match_buy_orders_fill k x env e.trades order e.sell_orders a v.sells in
      let enough = eligible-le x d.lt order.price e.sell_orders in
      let booked =
        settle-units x m.order e.buy_orders out.order_live (omega (arith, ap x.units size, a.wants))
          (Lacks-equal order.order_id m.order.order_id e.buy_orders id h) in
      let parts = process_order-buy env now order e b in
      let sum = traded_units-append x e.results (m.sent ++ s.sent) in
      let sum' = traded_units-append x m.sent s.sent in
      let quiet = settle-traded x m.order e.buy_orders in
      rw (parts.0, parts.1, parts.3) (omega (arith, fill, enough, booked, sum, sum', quiet))

  sell-accounted :
      (env : Env) (now : ℕ) (order : Order D) (e : Engine D)
      → is_buy order.order_side ≡ false
      → IsAdmissible k x order
      → IsValid k x e
      → Lacks order.order_id e.sell_orders
      → accounted x (process_order env now order e) ≡ accounted x e + remaining x order
  sell-accounted env now order e b a v h =
      let m = match_sell_orders env e.trades order e.buy_orders in
      let s = settle m.order e.sell_orders in
      let same = match_sell_orders-SameTerms env e.trades order e.buy_orders in
      let id : m.order.order_id ≡ order.order_id = ap (λ (o : Order D). o.order_id) same in
      let size : m.order.quantity ≡ order.quantity = ap (λ (o : Order D). o.quantity) same in
      let (left, out) =
        match_sell_orders-outcome k x true env e.trades order e.buy_orders a.price_known a.live
          v.buys in
      let fill = match_sell_orders_fill k x env e.trades order e.buy_orders a v.buys in
      let enough = eligible-le x above order.price e.buy_orders in
      let booked =
        settle-units x m.order e.sell_orders out.order_live
          (omega (arith, ap x.units size, a.wants))
          (Lacks-equal order.order_id m.order.order_id e.sell_orders id h) in
      let parts = process_order-sell env now order e b in
      let sum = traded_units-append x e.results (m.sent ++ s.sent) in
      let sum' = traded_units-append x m.sent s.sent in
      let quiet = settle-traded x m.order e.sell_orders in
      rw (parts.0, parts.1, parts.3) (omega (arith, fill, enough, booked, sum, sum', quiet))

  pub process_order-accounted :
      (env : Env) (now : ℕ) (order : Order D) (e : Engine D)
      → IsAdmissible k x order
      → IsValid k x e
      → IsFresh order.order_id e
      → accounted x (process_order env now order e) ≡ accounted x e + remaining x order
  process_order-accounted env now order e a v (hb, hs) =
      elim (Bool-cases (is_buy order.order_side)) [
        | inl b ↦ buy-accounted env now order e b a v hb
        | inr b ↦ sell-accounted env now order e b a v hs
      ]
