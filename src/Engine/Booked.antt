-- ===== src/Engine/Booked.antt =====
-- An order of Engine/Process.antt that stands in a side of the book as it is, and what booking it again
-- does.
use match_engine.Prelude.{
  ℕ, ◌<◌, ◌≡◌, refl, ap, sym, ◌∙◌, subst, Bool, true, false, inl, inr, Option, some, [], ◌∷◌, ◌++◌,
  arith, All-append_right, Bool-cases, ltb,
}
use match_engine.Double.{Double, IsRanked, IsExact}
use match_engine.Order.{Order}
use match_engine.OrderedMap.{OrderedMap, update}
use match_engine.OrderedMap.Sorted.{AllKeys, Sorted, AllKeys-map, Sorted-with}
use match_engine.Engine.Trade.{Env}
use match_engine.Engine.Match.{Level, Book, wants_more, match_levels}
use match_engine.Engine.Book.{put_order, level_of, add_order_to_book}
use match_engine.Engine.Process.{settle}
use match_engine.Engine.Levels.{IsOpen}
use match_engine.Engine.Invariant.{IsEntry, IsLevel, Rises, IsBook}
use match_engine.Engine.Settle.{settle_cases}
use match_engine.Engine.Sides.{prices_known}

module _ {K V : Type 0} (before : K → K → Bool) where
  Sorted-front :
      (R : K → K → Type 0) (m : OrderedMap K V) (key : K) (v : V) (n : OrderedMap K V)
      → Sorted R (m ++ (key, v) ∷ n)
      → AllKeys (λ j. R j key) m
  Sorted-front R [] key v n s = tt
  Sorted-front R ((j, w) ∷ m) key v n (a, s) =
      ((All-append_right (λ (i, u). R j i) m ((key, v) ∷ n) a).0, Sorted-front R m key v n s)

  -- `update` at a key that is there changes the value of its entry.
  update-there :
      (key : K) (f : Option V → V) (m : OrderedMap K V) (own : K) (v : V) (n : OrderedMap K V)
      → AllKeys (λ j. (before key j ≡ false) × (before j key ≡ true)) m
      → before key own ≡ false
      → before own key ≡ false
      → update before key f (m ++ (own, v) ∷ n) ≡ m ++ (own, f (some v)) ∷ n
  unfolding update
  update-there key f [] own v n h b b' = rw (b, b') refl
  update-there key f ((j, w) ∷ m) own v n ((p, q), h) b b' =
      rw (p, q) (ap (λ l. (j, w) ∷ l) (update-there key f m own v n h b b'))

module _ {D : Type 0} where
  -- The order stands in the book as it is, under its id.
  abbrev pub IsResting : Order D → Book D → Type 0
  IsResting o book =
      (before after : Book D) × (price : D) × (low high : Level D) × (book
        ≡ before ++ (price, low ++ (o.order_id, o) ∷ high) ∷ after)

module _ {D : Type 0} ⦃d : Double D⦄ where
  put_order-again :
      (o : Order D) (low high : Level D)
      → Sorted ◌<◌ (low ++ (o.order_id, o) ∷ high)
      → put_order o (low ++ (o.order_id, o) ∷ high) ≡ low ++ (o.order_id, o) ∷ high
  unfolding put_order
  put_order-again o low high s =
      update-there ltb o.order_id (λ old. o) low o.order_id o high
        (AllKeys-map (λ j. j < o.order_id) _ low (λ j h. (ground arith, ground arith))
          (Sorted-front ltb ◌<◌ low o.order_id o high s))
        (ground arith) (ground arith)

  -- Where every price is beyond the order's own, nothing is matched.
  pub match_levels-none :
      (env : Env) (beyond : D → D → Bool) (n : ℕ) (order : Order D) (book : Book D)
      → AllKeys (λ p. beyond order.price p ≡ true) book
      → match_levels env beyond n order book ≡ record { order = order; left = book; sent = [] }
  unfolding match_levels
  match_levels-none env beyond n order [] h = refl
  match_levels-none env beyond n order ((price, level) ∷ rest) (b, h) =
      elim (Bool-cases (wants_more order)) [ inl e ↦ rw (e, b) refl | inr e ↦ rw e refl ]

module _ {D : Type 0} ⦃d : Double D⦄ (k : IsRanked D) (x : IsExact D) (buying : Bool) where
  open k use {is_price, rank}

  -- What a valid side says of an order that rests in it.
  record IsPlaced (o : Order D) (price : D) (level : Level D) : Type 0 where
    entry : IsEntry k x buying price o.order_id o
    price_known : is_price price ≡ true
    ids_rise : Sorted ◌<◌ level
    is_open : IsOpen x o

  placed :
      (o : Order D) (before after : Book D) (price : D) (low high : Level D)
      → IsBook k x buying (before ++ (price, low ++ (o.order_id, o) ∷ high) ∷ after)
      → IsPlaced o price (low ++ (o.order_id, o) ∷ high)
  placed o before after price low high h =
      let level : Level D = low ++ (o.order_id, o) ∷ high in
      let at =
        (All-append_right (λ (p, l). IsLevel k x buying p l) before ((price, level) ∷ after)
          h.levels).0 in
      let (opens, pos) = (All-append_right _ before ((price, level) ∷ after) h.orders_open).0 in
      record {
        entry =
            (All-append_right (λ (id, a). IsEntry k x buying price id a) low
              ((o.order_id, o) ∷ high) at.entries).0;
        price_known = at.price_known;
        ids_rise = at.ids_rise;
        is_open = (All-append_right (λ (id, a). IsOpen x a) low ((o.order_id, o) ∷ high) opens).0;
      }

  add_order_to_book-again :
      (o : Order D) (before after : Book D) (price : D) (low high : Level D)
      → let book = before ++ (price, low ++ (o.order_id, o) ∷ high) ∷ after in
        IsBook k x buying book → add_order_to_book o book ≡ book
  unfolding add_order_to_book level_of
  add_order_to_book-again o before after price low high h =
      let level : Level D = low ++ (o.order_id, o) ∷ high in
      let pl = placed o before after price low high h in
      let own = pl.entry.own_price in
      let same = pl.entry.own_rank in
      let known = prices_known k x buying _ h.levels in
      let Known : D → D → Type 0 =
        λ a b. (is_price a ≡ true) × (is_price b ≡ true) × Rises k x a b in
      let sorted = Sorted-with (λ p. is_price p ≡ true) (Rises k x) _ known h.prices_rise in
      let front = Sorted-front d.lt Known before price level after sorted in
      update-there d.lt o.price (λ old. put_order o (level_of old)) before price level after
        (AllKeys-map (λ j. Known j price) _ before
          (λ j (pj, pp, r). (
            ground (arith, k.lt_rank o.price j own pj),
            ground (arith, k.lt_rank j o.price pj own),
          ))
          front)
        (ground (arith, k.lt_rank o.price price own pl.price_known))
        (ground (arith, k.lt_rank price o.price pl.price_known own))
      ∙ ap (λ l. before ++ (price, l) ∷ after) (put_order-again o low high pl.ids_rise)

  -- An order that rests in a valid side: it has something left, its price is that of an entry, and
  -- booking it leaves the side as it is.
  pub record IsBooked (o : Order D) (book : Book D) : Type 1 where
    pub is_open : IsOpen x o
    pub own_price : is_price o.price ≡ true
    pub at_price : (P : D → Type 0) → AllKeys P book → (q : D) × P q × (rank o.price ≡ rank q)
    pub again : add_order_to_book o book ≡ book

  IsBooked-there :
      (o : Order D) (before after : Book D) (price : D) (low high : Level D)
      → let book = before ++ (price, low ++ (o.order_id, o) ∷ high) ∷ after in
        IsBook k x buying book → IsBooked o book
  IsBooked-there o before after price low high h =
      let pl = placed o before after price low high h in
      let level : Level D = low ++ (o.order_id, o) ∷ high in
      record {
        is_open = pl.is_open;
        own_price = pl.entry.own_price;
        at_price = λ P a. (
          price,
          (All-append_right (λ (p, l). P p) before ((price, level) ∷ after) a).0,
          pl.entry.own_rank,
        );
        again = add_order_to_book-again o before after price low high h;
      }

  pub booked :
      (o : Order D) (book : Book D) → IsResting o book → IsBook k x buying book → IsBooked o book
  booked o book (before, after, price, low, high, e) h =
      subst (IsBooked o) (sym e)
        (IsBooked-there o before after price low high (subst (IsBook k x buying) e h))

  pub settle-again : (o : Order D) (book : Book D) → IsBooked o book → (settle o book).own ≡ book
  settle-again o book b =
      let left = b.is_open.remaining_pos in
      elim (settle_cases x o book b.is_open.live (omega (arith, left))) [
        | inl (more, e) ↦ e ∙ b.again
        | inr (full, e) ↦ absurd (omega (arith, left, full))
      ]
