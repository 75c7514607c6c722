-- ===== src/Engine/Entries.antt =====
-- What every entry of the books of Engine/Process.antt has, where it does not look at the filled
-- quantity and an incoming order has it too.
use match_engine.Prelude.{
  ℕ, ◌≡◌, sym, subst, Bool, false, inl, inr, [], reverse, arith, All, Bool-cases, ltb,
}
use match_engine.Double.{Double}
use match_engine.Order.{Order}
use match_engine.OrderedMap.Sorted.{update-All, All-reverse}
use match_engine.Engine.Trade.{Env}
use match_engine.Engine.Match.{
  Level, Book, wants_more, match_levels, match_buy_orders, match_sell_orders,
}
use match_engine.Engine.Book.{put_order, level_of, add_order_to_book}
use match_engine.Engine.Process.{Engine, is_buy, settle, process_order}
use match_engine.Engine.Levels.{SameTerms, IsStatic, match_level-All}
use match_engine.Engine.Sweep.{match_levels-All}
use match_engine.Engine.Safety.{match_buy_orders-SameTerms, match_sell_orders-SameTerms}
use match_engine.Engine.Settle.{process_order-buy, process_order-sell}
use match_engine.Engine.Sides.{above}

module _ {D : Type 0} (P : ℕ → Order D → Type 0) where
  abbrev pub AllEntries : Book D → Type 0
  AllEntries = All λ (price, level). All (λ (id, o). P id o) level

module _ {D : Type 0} ⦃d : Double D⦄ (P : ℕ → Order D → Type 0) (static : IsStatic P) where
  left-AllEntries :
      (env : Env) (beyond : D → D → Bool) (n : ℕ) (order : Order D) (book : Book D)
      → AllEntries P book
      → AllEntries P (match_levels env beyond n order book).left
  left-AllEntries env beyond n order book h =
      match_levels-All env beyond (λ p l. All (λ (id, o). P id o) l)
        (λ n o p l g. match_level-All P static env n o l g) n order book h

  put_order-All :
      (o : Order D) (level : Level D)
      → P o.order_id o
      → All (λ (id, o). P id o) level
      → All (λ (id, o). P id o) (put_order o level)
  unfolding put_order
  put_order-All o level p h =
      update-All ltb P o.order_id (λ old. o) level p (λ j a b b' _. same_id j b b') h
    where
      same_id : (j : ℕ) → ltb o.order_id j ≡ false → ltb j o.order_id ≡ false → P j o
      same_id j b b' = let same : o.order_id ≡ j = ground arith in subst (λ i. P i o) same p

  add_order_to_book-AllEntries :
      (o : Order D) (book : Book D)
      → P o.order_id o
      → AllEntries P book
      → AllEntries P (add_order_to_book o book)
  unfolding add_order_to_book
  add_order_to_book-AllEntries o book p h =
      update-All d.lt (λ q l. All (λ (id, o). P id o) l) o.price (λ old. put_order o (level_of old))
        book (put_order-All o [] p tt) (λ q l _ _ g. put_order-All o l p g) h

  settle-AllEntries :
      (o : Order D) (own : Book D)
      → P o.order_id o
      → AllEntries P own
      → AllEntries P (settle o own).own
  unfolding settle
  settle-AllEntries o own p h =
      let more = add_order_to_book-AllEntries o own p h in
      elim (Bool-cases (d.eq o.filled_quantity d.nought)) [
        | inl e ↦ rw e more
        | inr e ↦ elim (Bool-cases (wants_more o)) [
          | inl e' ↦ rw (e, e') more
          | inr e' ↦ rw (e, e') h
        ]
      ]

  same_terms : (a b : Order D) → SameTerms a b → P a.order_id a → P b.order_id b
  same_terms a b e p =
      subst (λ (o : Order D). P o.order_id o) (sym e) (static a.order_id a b.filled_quantity p)

  pub process_order-AllEntries :
      (env : Env) (now : ℕ) (order : Order D) (e : Engine D)
      → P order.order_id order
      → AllEntries P e.buy_orders
      → AllEntries P e.sell_orders
      → AllEntries P (process_order env now order e).buy_orders
        × AllEntries P (process_order env now order e).sell_orders
  unfolding match_buy_orders match_sell_orders
  process_order-AllEntries env now order e p hb hs = elim (Bool-cases (is_buy order.order_side)) [
    | inl b ↦
        let m = match_buy_orders env e.trades order e.sell_orders in
        let same = match_buy_orders-SameTerms env e.trades order e.sell_orders in
        let own = settle-AllEntries m.order e.buy_orders (same_terms order m.order same p) hb in
        let parts = process_order-buy env now order e b in
        (rw parts.0 own, rw parts.1 (left-AllEntries env d.lt e.trades order e.sell_orders hs))
    | inr b ↦
        let m = match_sell_orders env e.trades order e.buy_orders in
        let same = match_sell_orders-SameTerms env e.trades order e.buy_orders in
        let own = settle-AllEntries m.order e.sell_orders (same_terms order m.order same p) hs in
        let parts = process_order-sell env now order e b in
        let turned = All-reverse _ e.buy_orders hb in
        (
          rw parts.0 (
              All-reverse _ _
                (left-AllEntries env above e.trades order (reverse e.buy_orders) turned)),
          rw parts.1 own,
        )
  ]
