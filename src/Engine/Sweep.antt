-- ===== src/Engine/Sweep.antt =====
-- The outer loop of Engine/Match.antt: what `match_levels` makes of the order and of a whole side, in
-- either direction. `R` is the order of iteration of the prices.
use mathlib.Core.List.{reverse-cons}
use match_engine.Prelude.{
  ℕ, ◌+◌, ◌-◌, ◌≤◌, ◌<◌, ◌≡◌, refl, Bool, true, false, inl, inr, [], ◌∷◌, ◌++◌, reverse, min, arith,
  All, length, Bool-cases, if◌then◌else◌, ap, ◌∙◌,
}
use match_engine.Double.{Double, IsExact}
use match_engine.Order.{Order}
use match_engine.OrderedMap.Sorted.{AllKeys, Sorted, All-reverse}
use match_engine.Engine.Trade.{Env}
use match_engine.Engine.Match.{
  Level, Book, Matched, wants_more, match_level, keep_level, match_levels,
}
use match_engine.Engine.Exact.{IsLive, remaining, wants_more-remaining}
use match_engine.Engine.Levels.{
  SameTerms, SameTerms-trans, match_level-SameTerms, AllOpen, open_units, match_level-outcome,
}

module _ {D : Type 0} ⦃d : Double D⦄ (env : Env) (beyond : D → D → Bool) where
  pub match_levels-SameTerms :
      (n : ℕ) (order : Order D) (book : Book D)
      → SameTerms order (match_levels env beyond n order book).order
  unfolding match_levels
  match_levels-SameTerms n order [] = refl
  match_levels-SameTerms n order ((price, level) ∷ rest) =
      let r = match_level env n order level in
      let a = match_level-SameTerms env n order level in
      let b = match_levels-SameTerms (n + length r.sent) r.order rest in
      elim (Bool-cases (wants_more order)) [
        | inl e ↦ elim (Bool-cases (beyond order.price price)) [
          | inl e' ↦ rw (e, e') refl
          | inr e' ↦ rw (e, e') (SameTerms-trans order r.order _ a b)
        ]
        | inr e ↦ rw e refl
      ]

  keep_level-All :
      (P : D → Level D → Type 0) (price : D) (level : Level D) (book : Book D)
      → P price level
      → All (λ (p, l). P p l) book
      → All (λ (p, l). P p l) (keep_level price level book)
  unfolding keep_level
  keep_level-All P price [] book p h = h
  keep_level-All P price (entry ∷ level) book p h = (p, h)

  -- What holds of every level, and is kept by matching against one level, is kept.
  pub match_levels-All :
      (P : D → Level D → Type 0)
      → ((n : ℕ) (o : Order D) (p : D) (l : Level D) → P p l → P p (match_level env n o l).left)
      → (n : ℕ) (order : Order D) (book : Book D) → All (λ (p, l). P p l) book
      → All (λ (p, l). P p l) (match_levels env beyond n order book).left
  unfolding match_levels
  match_levels-All P keep n order [] h = tt
  match_levels-All P keep n order ((price, level) ∷ rest) (p, h) =
      let r = match_level env n order level in
      let ih = match_levels-All P keep (n + length r.sent) r.order rest h in
      elim (Bool-cases (wants_more order)) [
        | inl e ↦ elim (Bool-cases (beyond order.price price)) [
          | inl e' ↦ rw (e, e') (p, h)
          | inr e' ↦ rw (e, e') (keep_level-All P price r.left _ (keep n order price level p) ih)
        ]
        | inr e ↦ rw e (p, h)
      ]

  keep_level-Sorted :
      (R : D → D → Type 0) (price : D) (level : Level D) (book : Book D)
      → AllKeys (R price) book
      → Sorted R book
      → Sorted R (keep_level price level book)
  unfolding keep_level
  keep_level-Sorted R price [] book a s = s
  keep_level-Sorted R price (entry ∷ level) book a s = (a, s)

  pub match_levels-Sorted :
      (R : D → D → Type 0) (n : ℕ) (order : Order D) (book : Book D)
      → Sorted R book
      → Sorted R (match_levels env beyond n order book).left
  unfolding match_levels
  match_levels-Sorted R n order [] s = tt
  match_levels-Sorted R n order ((price, level) ∷ rest) (a, s) =
      let r = match_level env n order level in
      let ih = match_levels-Sorted R (n + length r.sent) r.order rest s in
      let keys =
        match_levels-All (λ q l. R price q) (λ n o p l h. h) (n + length r.sent) r.order rest a in
      elim (Bool-cases (wants_more order)) [
        | inl e ↦ elim (Bool-cases (beyond order.price price)) [
          | inl e' ↦ rw (e, e') (a, s)
          | inr e' ↦ rw (e, e') (keep_level-Sorted R price r.left _ keys ih)
        ]
        | inr e ↦ rw e (a, s)
      ]

module _ {D : Type 0} ⦃d : Double D⦄ (x : IsExact D) where
  -- Every price has open orders, and nothing else.
  abbrev pub AllOpenBook : Book D → Type 0
  AllOpenBook = All λ (price, level). AllOpen x level × (0 < open_units x level)

  abbrev pub open_book : Book D → ℕ
  open_book [] = 0
  open_book ((price, level) ∷ book) = open_units x level + open_book book

module _ {D : Type 0} ⦃d : Double D⦄ (x : IsExact D) (beyond : D → D → Bool) where
  -- What an order with the price `own` may trade with: all levels at prices that are not beyond it.
  abbrev pub eligible : D → Book D → ℕ
  eligible own [] = 0
  eligible own ((price, level) ∷ book) =
      (if beyond own price then 0 else open_units x level) + eligible own book

  eligible-append :
      (own : D) (a b : Book D) → eligible own (a ++ b) ≡ eligible own a + eligible own b
  eligible-append own [] b = omega arith
  eligible-append own ((price, level) ∷ a) b = omega (arith, eligible-append own a b)

  open_book-append : (a b : Book D) → open_book x (a ++ b) ≡ open_book x a + open_book x b
  open_book-append [] b = omega arith
  open_book-append ((price, level) ∷ a) b = omega (arith, open_book-append a b)

  eligible-reverse : (own : D) (a : Book D) → eligible own (reverse a) ≡ eligible own a
  eligible-reverse own [] = refl
  eligible-reverse own ((price, level) ∷ a) =
      rw (reverse-cons (price, level) a) (
        omega
          (arith, eligible-append own (reverse a) ((price, level) ∷ []), eligible-reverse own a))

  pub open_book-reverse : (a : Book D) → open_book x (reverse a) ≡ open_book x a
  open_book-reverse [] = refl
  open_book-reverse ((price, level) ∷ a) =
      rw (reverse-cons (price, level) a)
        (omega (arith, open_book-append (reverse a) ((price, level) ∷ []), open_book-reverse a))

  -- Order and side lose the same units, as many as the smaller of what the order has left and what is
  -- eligible, and these come from the eligible levels.
  pub record SweepOutcome (own : D) (order : Order D) (book : Book D) (r : Matched D (Book D))
      : Type 0 where
    pub order_live : IsLive x r.order
    pub left_open : AllOpenBook x r.left
    pub order_units : remaining x r.order ≡ remaining x order - eligible own book
    pub left_units :
        open_book x r.left ≡ open_book x book - min (remaining x order) (eligible own book)
    pub eligible_left : eligible own r.left ≡ eligible own book - remaining x order

  pub eligible-le : (own : D) (book : Book D) → eligible own book ≤ open_book x book
  eligible-le own [] = omega arith
  eligible-le own ((price, level) ∷ book) = ground (arith, eligible-le own book)

  eligible-beyond :
      (own : D) (book : Book D) → AllKeys (λ q. beyond own q ≡ true) book → eligible own book ≡ 0
  eligible-beyond own [] h = refl
  eligible-beyond own ((price, level) ∷ book) (b, h) =
      rw b (ground (arith, eligible-beyond own book h))

  keep_level-units :
      (own price : D) (level : Level D) (book : Book D)
      → beyond own price ≡ false
      → AllOpen x level
      → AllOpenBook x book
      → AllOpenBook x (keep_level price level book)
        × (open_book x (keep_level price level book) ≡ open_units x level + open_book x book)
        × (eligible own (keep_level price level book) ≡ open_units x level + eligible own book)
  unfolding keep_level
  keep_level-units own price [] book b o h = (h, omega arith, omega arith)
  keep_level-units own price ((id, a) ∷ level) book b (p, o) h =
      let pos = p.remaining_pos in ((((p, o), omega arith), h), omega arith, rw b (omega arith))

  -- `R` is such that all prices behind one that is beyond `own` are beyond it too.
  abbrev pub IsMonotone : (D → D → Type 0) → D → Type 0
  IsMonotone R own = (p q : D) → beyond own p ≡ true → R p q → beyond own q ≡ true

  all-beyond :
      (R : D → D → Type 0) (own p : D) (book : Book D)
      → IsMonotone R own
      → beyond own p ≡ true
      → AllKeys (R p) book
      → AllKeys (λ q. beyond own q ≡ true) book
  all-beyond R own p [] m b h = tt
  all-beyond R own p ((q, level) ∷ book) m b (r, h) = (m p q b r, all-beyond R own p book m b h)

  stopped_outcome :
      (own : D) (order : Order D) (book : Book D)
      → IsLive x order
      → AllOpenBook x book
      → min (remaining x order) (eligible own book) ≡ 0
      → SweepOutcome own order book (record { order = order; left = book; sent = [] })
  stopped_outcome own order book v h e = record {
    order_live = v;
    left_open = h;
    order_units = omega arith;
    left_units = omega arith;
    eligible_left = omega arith;
  }

  pub match_levels-outcome :
      (env : Env) (R : D → D → Type 0) (own : D) (n : ℕ) (order : Order D) (book : Book D)
      → IsMonotone R own
      → order.price ≡ own
      → IsLive x order
      → AllOpenBook x book
      → Sorted R book
      → SweepOutcome own order book (match_levels env beyond n order book)
  unfolding match_levels
  match_levels-outcome env R own n order [] m eq v h s =
      stopped_outcome own order [] v tt (omega arith)
  match_levels-outcome env R own n order ((price, level) ∷ rest) m eq v ((o, pos), h) (a, s) =
      let r = match_level env n order level in
      let lo = match_level-outcome x env n order level v o in
      let same = ap (λ (o : Order D). o.price) (match_level-SameTerms env n order level) ∙ eq in
      let ih =
        match_levels-outcome env R own (n + length r.sent) r.order rest m same lo.order_live h s in
      let w = wants_more-remaining x order v in
      let at_price : beyond order.price price ≡ beyond own price = ap (λ q. beyond q price) eq in
      elim (Bool-cases (wants_more order)) [
        | inl e ↦ elim (Bool-cases (beyond own price)) [
          | inl e' ↦
              let none_left = eligible-beyond own rest (all-beyond R own price rest m e' a) in
              rw (e, at_price ∙ e')
                (stopped_outcome own order ((price, level) ∷ rest) v ((o, pos), h)
                  (rw e' (omega (arith, none_left))))
          | inr e' ↦
              let (ko, ku, ke) =
                keep_level-units own price r.left
                  (match_levels env beyond (n + length r.sent) r.order rest).left e' lo.left_open
                  ih.left_open in
              let top = eligible-le own rest in
              rw (e, at_price ∙ e')
                (record {
                  order_live = ih.order_live;
                  left_open = ko;
                  order_units = rw e' (omega (arith, ih.order_units, lo.order_units));
                  left_units =
                      rw e' (omega (arith, ku, lo.left_units, lo.order_units, ih.left_units));
                  eligible_left =
                      rw e' (omega (arith, ke, lo.left_units, lo.order_units, ih.eligible_left));
                })
        ]
        | inr e ↦
            let full : remaining x order ≡ 0 = ground arith in
            rw e (stopped_outcome own order ((price, level) ∷ rest) v ((o, pos), h) (omega arith))
      ]

  -- The outcome does not depend on the direction in which the list is read.
  pub SweepOutcome-reverse :
      (own : D) (order : Order D) (book : Book D) (r : Matched D (Book D))
      → SweepOutcome own order (reverse book) r
      → SweepOutcome own order book
          (record { order = r.order; left = reverse r.left; sent = r.sent })
  SweepOutcome-reverse own order book r out = record {
    order_live = out.order_live;
    left_open = All-reverse _ r.left out.left_open;
    order_units = omega (arith, out.order_units, eligible-reverse own book);
    left_units = omega (
      arith,
      out.left_units,
      eligible-reverse own book,
      open_book-reverse book,
      open_book-reverse r.left,
    );
    eligible_left =
        omega (arith, out.eligible_left, eligible-reverse own book, eligible-reverse own r.left);
  }
