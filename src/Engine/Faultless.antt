-- ===== src/Engine/Faultless.antt =====
-- Rounds of Engine/Failing.antt in which no send throws, against Engine/Process.antt.
use match_engine.Prelude.{
  ℕ, suc, ◌+◌, ◌≡◌, refl, ap, ◌∙◌, Bool, true, false, inl, inr, [], ◌∷◌, Bool-cases, length,
  reverse,
}
use match_engine.Double.{Double}
use match_engine.Order.{Order}
use match_engine.Engine.Trade.{Env, process_trade}
use match_engine.Engine.Match.{
  Level, Book, Matched, wants_more, match_level, match_levels, match_buy_orders, match_sell_orders,
}
use match_engine.Engine.Process.{
  Engine, is_buy, settle, matched_engine, publish_order_book, process_order,
}
use match_engine.Engine.Sides.{above}
use match_engine.Engine.Failing.{
  Faults, Attempt, try_level, try_levels, try_publish, try_settle, try_order,
}

abbrev pub NoFaults : Faults → Type 0
NoFaults faults =
    ((n : ℕ) → faults.trade_fails n ≡ false)
    × (faults.unmatched_fails ≡ false)
    × (faults.book_fails ≡ false)

module _ {D M : Type 0} where
  abbrev done : Matched D M → Attempt D M
  done m = record { matched = m; thrown = false }

module _ {D : Type 0} ⦃d : Double D⦄ (fails : ℕ → Bool) (well : (n : ℕ) → fails n ≡ false) where
  try_level-done :
      (env : Env) (n : ℕ) (order : Order D) (level : Level D)
      → try_level fails env n order level ≡ done (match_level env n order level)
  unfolding try_level match_level
  try_level-done env n order [] = refl
  try_level-done env n order ((id, resting) ∷ rest) =
      let t = process_trade env n order resting in
      let ih = try_level-done env (suc n) t.order rest in
      elim (Bool-cases (wants_more order)) [ inl e ↦ rw (e, well n, ih) refl | inr e ↦ rw e refl ]

  try_levels-done :
      (env : Env) (beyond : D → D → Bool) (n : ℕ) (order : Order D) (book : Book D)
      → try_levels fails env beyond n order book ≡ done (match_levels env beyond n order book)
  unfolding try_levels match_levels
  try_levels-done env beyond n order [] = refl
  try_levels-done env beyond n order ((price, level) ∷ rest) =
      let r = match_level env n order level in
      let inner = try_level-done env n order level in
      let ih = try_levels-done env beyond (n + length r.sent) r.order rest in
      elim (Bool-cases (wants_more order)) [
        | inl e ↦ elim (Bool-cases (beyond order.price price)) [
          | inl e' ↦ rw (e, e') refl
          | inr e' ↦ rw (e, e', inner, ih) refl
        ]
        | inr e ↦ rw e refl
      ]

module _ {D : Type 0} ⦃d : Double D⦄ (faults : Faults) (none_fail : NoFaults faults) where
  try_settle-done :
      (now : ℕ) (buying : Bool) (m : Matched D (Book D)) (own : Book D) (e : Engine D)
      → try_settle faults now buying (done m) own e
        ≡ publish_order_book now (matched_engine buying m (settle m.order own) e)
  unfolding try_settle try_publish
  try_settle-done now buying m own e =
      let (_, reported, published) = none_fail in
      elim (Bool-cases (d.eq m.order.filled_quantity d.nought)) [
        | inl e' ↦ rw (e', reported, published) refl
        | inr e' ↦ rw (e', published) refl
      ]

  abbrev turned : Attempt D (Book D) → Attempt D (Book D)
  turned a = record {
    matched = record {
      order = a.matched.order;
      left = reverse a.matched.left;
      sent = a.matched.sent;
    };
    thrown = a.thrown;
  }

  -- Where no send throws, a round is the one without exceptions.
  pub try_order-process_order :
      (env : Env) (now : ℕ) (order : Order D) (e : Engine D)
      → try_order faults env now order e ≡ process_order env now order e
  unfolding try_order process_order match_sell_orders
  try_order-process_order env now order e = elim (Bool-cases (is_buy order.order_side)) [
    | inl b ↦ rw b (
        ap (λ a. try_settle faults now true a e.buy_orders e)
          (try_levels-done faults.trade_fails none_fail.0 env d.lt e.trades order e.sell_orders)
        ∙ try_settle-done now true (match_buy_orders env e.trades order e.sell_orders) e.buy_orders
            e)
    | inr b ↦ rw b (
        ap (λ a. try_settle faults now false (turned a) e.sell_orders e)
          (try_levels-done faults.trade_fails none_fail.0 env above e.trades order
            (reverse e.buy_orders))
        ∙ try_settle-done now false (match_sell_orders env e.trades order e.buy_orders)
            e.sell_orders e)
  ]
