-- ===== src/Engine/Messages.antt =====
-- The trades that the loops of Engine/Match.antt report.
use match_engine.Prelude.{
  ℕ, suc, ◌+◌, ◌<◌, ◌≡◌, refl, ap, ◌∙◌, Bool, false, inl, inr, List, [], ◌∷◌, ◌++◌, arith, All,
  All-append, Bool-cases, length, min,
}
use match_engine.Double.{Double, IsExact}
use match_engine.Order.{Order}
use match_engine.Engine.Trade.{Env, Message, unmatched_order, trade, process_trade}
use match_engine.Engine.Match.{Level, Book, wants_more, match_level, match_levels}
use match_engine.Engine.Exact.{
  IsLive, remaining, trade_quantity_of_units, process_trade-IsLive, wants_more-remaining,
}
use match_engine.Engine.Levels.{
  SameTerms, SameTerms-trans, process_trade-SameTerms, AllOpen, match_level-SameTerms,
  match_level-outcome,
}
use match_engine.Engine.Sweep.{AllOpenBook}

module _ {D : Type 0} where
  -- A trade of the order with the terms of `own`, at a price of `Q`. The record has the price of the
  -- other order, and names `own` as the buyer.
  abbrev pub IsTradeOf : Order D → (D → Type 0) → Message D → Type 0
  IsTradeOf own Q (unmatched_order o) = ⊥
  IsTradeOf own Q (trade a b r) =
      SameTerms own a
      × Q r.trade_price
      × (r.trade_price ≡ b.price)
      × (r.buyer_order_id ≡ own.order_id)
      × (r.buyer_user_id ≡ own.user_id)
      × (r.seller_order_id ≡ b.order_id)
      × (r.seller_user_id ≡ b.user_id)

  -- A trade whose second order is one of `P`, but for its filled quantity.
  abbrev pub IsTradeWith : (Order D → Type 0) → Message D → Type 0
  IsTradeWith P (unmatched_order o) = ⊥
  IsTradeWith P (trade a b r) = (o : Order D) × P o × SameTerms o b

module _ {D : Type 0} ⦃d : Double D⦄ (env : Env) (P : Order D → Type 0) where
  process_trade-IsTradeWith :
      (n : ℕ) (order opposite : Order D)
      → P opposite
      → IsTradeWith P (process_trade env n order opposite).message
  unfolding process_trade
  process_trade-IsTradeWith n order opposite p = (opposite, p, refl)

  match_level-IsTradeWith :
      (n : ℕ) (order : Order D) (level : Level D)
      → All (λ (id, o). P o) level
      → All (IsTradeWith P) (match_level env n order level).sent
  unfolding match_level
  match_level-IsTradeWith n order [] h = tt
  match_level-IsTradeWith n order ((id, resting) ∷ rest) (p, h) =
      let t = process_trade env n order resting in
      let ih = match_level-IsTradeWith (suc n) t.order rest h in
      elim (Bool-cases (wants_more order)) [
        | inl e ↦ rw e (process_trade-IsTradeWith n order resting p, ih)
        | inr e ↦ rw e tt
      ]

  -- Each trade of the loops is with one of the orders that were there.
  pub match_levels-IsTradeWith :
      (beyond : D → D → Bool) (n : ℕ) (order : Order D) (book : Book D)
      → All (λ (p, l). All (λ (id, o). P o) l) book
      → All (IsTradeWith P) (match_levels env beyond n order book).sent
  unfolding match_levels
  match_levels-IsTradeWith beyond n order [] h = tt
  match_levels-IsTradeWith beyond n order ((price, level) ∷ rest) (p, h) =
      let r = match_level env n order level in
      let ih = match_levels-IsTradeWith beyond (n + length r.sent) r.order rest h in
      elim (Bool-cases (wants_more order)) [
        | inl e ↦ elim (Bool-cases (beyond order.price price)) [
          | inl e' ↦ rw (e, e') tt
          | inr e' ↦
              rw (e, e')
                (All-append (IsTradeWith P) r.sent _ (match_level-IsTradeWith n order level p) ih)
        ]
        | inr e ↦ rw e tt
      ]

module _ {D : Type 0} ⦃d : Double D⦄ (env : Env) (own : Order D) (Q : D → Type 0) where
  process_trade-IsTradeOf :
      (n : ℕ) (order opposite : Order D)
      → SameTerms own order
      → Q opposite.price
      → IsTradeOf own Q (process_trade env n order opposite).message
  unfolding process_trade
  process_trade-IsTradeOf n order opposite s q =
      let t = process_trade env n order opposite in
      (
        SameTerms-trans own order t.order s refl,
        q,
        refl,
        ap (λ (o : Order D). o.order_id) s,
        ap (λ (o : Order D). o.user_id) s,
        refl,
        refl,
      )

  pub match_level-trades :
      (n : ℕ) (order : Order D) (level : Level D)
      → SameTerms own order
      → All (λ (id, o). Q o.price) level
      → All (IsTradeOf own Q) (match_level env n order level).sent
  unfolding match_level
  match_level-trades n order [] s h = tt
  match_level-trades n order ((id, resting) ∷ rest) s (q, h) =
      let t = process_trade env n order resting in
      let same =
        SameTerms-trans own order t.order s (process_trade-SameTerms env n order resting) in
      let ih = match_level-trades (suc n) t.order rest same h in
      elim (Bool-cases (wants_more order)) [
        | inl e ↦ rw e (process_trade-IsTradeOf n order resting s q, ih)
        | inr e ↦ rw e tt
      ]

  pub match_levels-trades :
      (beyond : D → D → Bool) (n : ℕ) (order : Order D) (book : Book D)
      → SameTerms own order
      → All (λ (p, l). beyond own.price p ≡ false → All (λ (id, o). Q o.price) l) book
      → All (IsTradeOf own Q) (match_levels env beyond n order book).sent
  unfolding match_levels
  match_levels-trades beyond n order [] s h = tt
  match_levels-trades beyond n order ((price, level) ∷ rest) s (q, h) =
      let r = match_level env n order level in
      let same = SameTerms-trans own order r.order s (match_level-SameTerms env n order level) in
      let ih = match_levels-trades beyond (n + length r.sent) r.order rest same h in
      let at_price : beyond order.price price ≡ beyond own.price price =
        ap (λ (o : Order D). beyond o.price price) s in
      elim (Bool-cases (wants_more order)) [
        | inl e ↦ elim (Bool-cases (beyond own.price price)) [
          | inl e' ↦ rw (e, at_price ∙ e') tt
          | inr e' ↦
              rw (e, at_price ∙ e')
                (All-append (IsTradeOf own Q) r.sent _ (match_level-trades n order level s (q e'))
                  ih)
        ]
        | inr e ↦ rw e tt
      ]

module _ {D : Type 0} ⦃d : Double D⦄ (x : IsExact D) where
  -- The units of one message, and of a list of messages.
  abbrev pub message_units : Message D → ℕ
  message_units (unmatched_order o) = 0
  message_units (trade a b r) = x.units r.trade_quantity

  abbrev pub traded_units : List (Message D) → ℕ
  traded_units [] = 0
  traded_units (m ∷ ms) = message_units m + traded_units ms

  pub traded_units-append :
      (a b : List (Message D)) → traded_units (a ++ b) ≡ traded_units a + traded_units b
  traded_units-append [] b = omega arith
  traded_units-append (m ∷ a) b = omega (arith, traded_units-append a b)

  pub process_trade_units :
      (env : Env) (n : ℕ) (a b : Order D)
      → IsLive x a
      → IsLive x b
      → message_units (process_trade env n a b).message ≡ min (remaining x a) (remaining x b)
  unfolding process_trade
  process_trade_units env n a b u v = (trade_quantity_of_units x a b u v).1

  -- The trades add up to what the order is filled by, and none of them is empty.
  pub match_level-traded :
      (env : Env) (n : ℕ) (order : Order D) (level : Level D)
      → IsLive x order
      → AllOpen x level
      → let r = match_level env n order level in
        (remaining x order ≡ traded_units r.sent + remaining x r.order)
        × All (λ m. 0 < message_units m) r.sent
  unfolding match_level
  match_level-traded env n order [] v h = (omega arith, tt)
  match_level-traded env n order ((id, resting) ∷ rest) v (p, h) =
      let t = process_trade env n order resting in
      let (la, lb, ra, rb) = process_trade-IsLive x env n order resting v p.live in
      let q = process_trade_units env n order resting v p.live in
      let (ih, pos) = match_level-traded env (suc n) t.order rest la h in
      let w = wants_more-remaining x order v in
      let some_left = p.remaining_pos in
      elim (Bool-cases (wants_more order)) [
        | inl e ↦
            let wants : 0 < remaining x order = ground arith in
            rw e (omega arith, (omega arith, pos))
        | inr e ↦ rw e (omega arith, tt)
      ]

  pub match_levels-traded :
      (env : Env) (beyond : D → D → Bool) (n : ℕ) (order : Order D) (book : Book D)
      → IsLive x order
      → AllOpenBook x book
      → let r = match_levels env beyond n order book in
        (remaining x order ≡ traded_units r.sent + remaining x r.order)
        × All (λ m. 0 < message_units m) r.sent
  unfolding match_levels
  match_levels-traded env beyond n order [] v h = (omega arith, tt)
  match_levels-traded env beyond n order ((price, level) ∷ rest) v ((o, pos), h) =
      let r = match_level env n order level in
      let (sum, each) = match_level-traded env n order level v o in
      let lo = match_level-outcome x env n order level v o in
      let s = match_levels env beyond (n + length r.sent) r.order rest in
      let (ih, ihs) =
        match_levels-traded env beyond (n + length r.sent) r.order rest lo.order_live h in
      elim (Bool-cases (wants_more order)) [
        | inl e ↦ elim (Bool-cases (beyond order.price price)) [
          | inl e' ↦ rw (e, e') (omega arith, tt)
          | inr e' ↦
              rw (e, e')
                (
                  omega (arith, traded_units-append r.sent s.sent),
                  All-append (λ m. 0 < message_units m) r.sent s.sent each ihs,
                )
        ]
        | inr e ↦ rw e (omega arith, tt)
      ]
