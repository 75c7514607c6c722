-- ===== src/Engine/Priority.antt =====
-- Price and time priority: the nested loops of Engine/Match.antt against one pass over a queue. The queue
-- of a side has its resting orders by price in the order of iteration, and by order id within a price.
use native.Mathlib.Nat.{add-zero}
use mathlib.Core.List.{reverse-reverse}
use match_engine.Prelude.{
  ℕ, suc, ◌+◌, ◌≡◌, refl, ap, ◌∙◌, Bool, true, false, not, inl, inr, List, [], ◌∷◌, ◌++◌, ◌&&◌,
  arith, All, Bool-cases, length, if◌then◌else◌, ◌≢◌, reverse,
}
use match_engine.Double.{Double}
use match_engine.Order.{Order}
use match_engine.OrderedMap.Sorted.{All-reverse}
use match_engine.Engine.Trade.{Env, process_trade}
use match_engine.Engine.Match.{
  Level, Book, Matched, match_buy_orders, match_sell_orders, wants_more, keep_open, match_level,
  keep_level, match_levels,
}
use match_engine.Engine.Levels.{process_trade-SameTerms}
use match_engine.Engine.Sides.{above}

-- A price, an order id, and the order.
abbrev pub Queue : Type 0 → Type 0
Queue D = List (D × ℕ × Order D)

module _ {D : Type 0} where
  abbrev pub tagged : D → Level D → Queue D
  tagged price [] = []
  tagged price ((id, o) ∷ level) = (price, id, o) ∷ tagged price level

  abbrev pub flatten : Book D → Queue D
  flatten [] = []
  flatten ((price, level) ∷ book) = tagged price level ++ flatten book

  -- A result of the outer loop, with the side as a queue.
  abbrev pub queued : Matched D (Book D) → Matched D (Queue D)
  queued m = record { order = m.order; left = flatten m.left; sent = m.sent }

  -- No price stands there without orders.
  abbrev pub NoEmptyLevel : Book D → Type 0
  NoEmptyLevel = All λ (price, level). level ≢ []

module _ {D : Type 0} ⦃d : Double D⦄ (env : Env) (beyond : D → D → Bool) where
  -- The specification. The first order of the queue trades next, if the incoming order still wants
  -- something and that price is not beyond its own; it leaves the queue if it is filled.
  pub sweep : ℕ → Order D → Queue D → Matched D (Queue D)
  sweep n order [] = record { order = order; left = []; sent = [] }
  sweep n order ((price, id, resting) ∷ queue) =
      let t = process_trade env n order resting in
      let s = sweep (suc n) t.order queue in
      let traded : Matched D (Queue D) = record {
        order = s.order;
        left =
            if d.le t.opposite.quantity t.opposite.filled_quantity
            then s.left
            else (price, id, t.opposite) ∷ s.left;
        sent = t.message ∷ s.sent;
      } in
      if wants_more order && not (beyond order.price price)
      then traded
      else record { order = order; left = (price, id, resting) ∷ queue; sent = [] }

  -- A result of the inner loop, followed by one on the rest of the queue.
  abbrev then_rest : D → Matched D (Level D) → Matched D (Queue D) → Matched D (Queue D)
  then_rest price r s = record {
    order = s.order;
    left = tagged price r.left ++ s.left;
    sent = r.sent ++ s.sent;
  }

  sweep-full :
      (n : ℕ) (order : Order D) (queue : Queue D)
      → wants_more order ≡ false
      → sweep n order queue ≡ record { order = order; left = queue; sent = [] }
  unfolding sweep
  sweep-full n order [] e = refl
  sweep-full n order ((price, id, resting) ∷ queue) e = rw e refl

  left-keep_open :
      (price : D) (id : ℕ) (o : Order D) (level : Level D) (queue : Queue D)
      → (if d.le o.quantity o.filled_quantity
          then tagged price level ++ queue
          else (price, id, o) ∷ (tagged price level ++ queue))
        ≡ tagged price (keep_open id o level) ++ queue
  unfolding keep_open
  left-keep_open price id o level queue = elim (Bool-cases (d.le o.quantity o.filled_quantity)) [
    | inl e ↦ rw e refl
    | inr e ↦ rw e refl
  ]

  sweep-level :
      (price : D) (n : ℕ) (order : Order D) (level : Level D) (queue : Queue D)
      → beyond order.price price ≡ false
      → let r = match_level env n order level in
        sweep n order (tagged price level ++ queue)
        ≡ then_rest price r (sweep (n + length r.sent) r.order queue)
  unfolding sweep match_level
  sweep-level price n order [] queue b = rw (add-zero n) refl
  sweep-level price n order ((id, resting) ∷ rest) queue b =
      let t = process_trade env n order resting in
      let r = match_level env (suc n) t.order rest in
      let s = sweep (suc n + length r.sent) r.order queue in
      let same : beyond t.order.price price ≡ false =
        ap (λ (o : Order D). beyond o.price price) (process_trade-SameTerms env n order resting)
        ∙ b in
      let ih = sweep-level price (suc n) t.order rest queue same in
      let count : n + suc (length r.sent) ≡ suc n + length r.sent = omega arith in
      elim (Bool-cases (wants_more order)) [
        | inl e ↦ rw (e, b, ih, count, left-keep_open price id t.opposite r.left s.left) refl
        | inr e ↦ rw (e, add-zero n, sweep-full n order queue e) refl
      ]

  flatten-keep_level :
      (price : D) (level : Level D) (book : Book D)
      → flatten (keep_level price level book) ≡ tagged price level ++ flatten book
  unfolding keep_level
  flatten-keep_level price [] book = refl
  flatten-keep_level price (entry ∷ level) book = refl

  sweep-beyond :
      (price : D) (n : ℕ) (order : Order D) (level : Level D) (queue : Queue D)
      → level ≢ []
      → beyond order.price price ≡ true
      → sweep n order (tagged price level ++ queue)
        ≡ record { order = order; left = tagged price level ++ queue; sent = [] }
  unfolding sweep
  sweep-beyond price n order [] queue h b = absurd (h refl)
  sweep-beyond price n order ((id, resting) ∷ level) queue h b =
      elim (Bool-cases (wants_more order)) [ inl e ↦ rw (e, b) refl | inr e ↦ rw e refl ]

  pub match_levels-sweep :
      (n : ℕ) (order : Order D) (book : Book D)
      → NoEmptyLevel book
      → queued (match_levels env beyond n order book) ≡ sweep n order (flatten book)
  unfolding match_levels
  match_levels-sweep n order [] h = unfold sweep in refl
  match_levels-sweep n order ((price, level) ∷ rest) (some_order, h) =
      let r = match_level env n order level in
      let s = match_levels env beyond (n + length r.sent) r.order rest in
      let ih = match_levels-sweep (n + length r.sent) r.order rest h in
      elim (Bool-cases (wants_more order)) [
        | inl e ↦ elim (Bool-cases (beyond order.price price)) [
          | inl b ↦ rw (e, b, sweep-beyond price n order level (flatten rest) some_order b) refl
          | inr b ↦
              rw
                (
                  e,
                  b,
                  sweep-level price n order level (flatten rest) b,
                  ← ih,
                  flatten-keep_level price r.left s.left,
                )
                refl
        ]
        | inr e ↦ rw (e, sweep-full n order (tagged price level ++ flatten rest) e) refl
      ]

module _ {D : Type 0} ⦃d : Double D⦄ where
  -- If no ask price is without orders, matching an order against the asks is one pass over their
  -- queue, lowest price first: the same order, messages and queue of what is left.
  pub match_buy_orders-sweep :
      (env : Env) (n : ℕ) (order : Order D) (asks : Book D)
      → NoEmptyLevel asks
      → queued (match_buy_orders env n order asks) ≡ sweep env d.lt n order (flatten asks)
  unfolding match_buy_orders
  match_buy_orders-sweep env n order asks h = match_levels-sweep env d.lt n order asks h

  -- If no bid price is without orders, matching an order against the bids is one pass over their
  -- queue, highest price first: the same order, messages and queue of what is left.
  pub match_sell_orders-sweep :
      (env : Env) (n : ℕ) (order : Order D) (bids : Book D)
      → NoEmptyLevel bids
      → let m = match_sell_orders env n order bids in
        queued (record { order = m.order; left = reverse m.left; sent = m.sent })
        ≡ sweep env above n order (flatten (reverse bids))
  unfolding match_sell_orders
  match_sell_orders-sweep env n order bids h =
      let r = match_levels env above n order (reverse bids) in
      rw (reverse-reverse r.left)
        (match_levels-sweep env above n order (reverse bids) (All-reverse _ bids h))
