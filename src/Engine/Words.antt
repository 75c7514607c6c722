-- ===== src/Engine/Words.antt =====
-- The ids in the engine's state and in its messages, against the machine words that hold them.
use match_engine.Prelude.{
  ℕ, suc, ◌+◌, ◌<◌, ◌^◌, ◌≡◌, Bool, inl, inr, List, [], ◌∷◌, ◌++◌, All, All-append, Bool-cases,
  length, reverse,
}
use match_engine.Double.{Double}
use match_engine.Order.{Order}
use match_engine.OrderedMap.Sorted.{All-reverse}
use match_engine.Serialization.RoundTrip.{FitsOrder, FitsTrade}
use match_engine.Engine.Trade.{Env, Message, unmatched_order, trade, process_trade}
use match_engine.Engine.Match.{
  Level, Book, wants_more, match_level, match_levels, match_buy_orders, match_sell_orders,
}
use match_engine.Engine.Process.{Engine, is_buy, settle, process_order}
use match_engine.Engine.Levels.{SameTerms, process_trade-SameTerms, match_level-SameTerms}
use match_engine.Engine.Safety.{match_buy_orders-SameTerms, match_sell_orders-SameTerms}
use match_engine.Engine.Settle.{process_order-buy, process_order-sell}
use match_engine.Engine.Sides.{above}
use match_engine.Engine.Entries.{AllEntries, process_order-AllEntries}

module _ {D : Type 0} where
  abbrev pub FitsMessage : Message D → Type 0
  FitsMessage (unmatched_order o) = FitsOrder o
  FitsMessage (trade a b r) = FitsOrder a × FitsOrder b × FitsTrade r

  abbrev pub FitsLevel : Level D → Type 0
  FitsLevel = All λ (id, o). FitsOrder o

  abbrev pub FitsBook : Book D → Type 0
  FitsBook = AllEntries λ id o. FitsOrder o

  abbrev pub FitsEngine : Engine D → Type 0
  FitsEngine e = FitsBook e.buy_orders × FitsBook e.sell_orders

  fits-SameTerms : (a b : Order D) → SameTerms a b → FitsOrder a → FitsOrder b
  fits-SameTerms a b e h = rw e h

-- `rand()` gives an `int`, which is not negative.
module _ {D : Type 0} ⦃d : Double D⦄ (env : Env) (small : (n : ℕ) → env.rand n < 2 ^ 32) where
  process_trade_fits :
      (n : ℕ) (a b : Order D)
      → FitsOrder a
      → FitsOrder b
      → FitsMessage (process_trade env n a b).message
  unfolding process_trade
  process_trade_fits n a b (ia, ua) (ib, ub) = ((ia, ua), (ib, ub), (small n, ua, ub, ia, ib))

  match_level_fits :
      (n : ℕ) (order : Order D) (level : Level D)
      → FitsOrder order
      → FitsLevel level
      → All FitsMessage (match_level env n order level).sent
  unfolding match_level
  match_level_fits n order [] f h = tt
  match_level_fits n order ((id, resting) ∷ rest) f (g, h) =
      let t = process_trade env n order resting in
      let f' = fits-SameTerms order t.order (process_trade-SameTerms env n order resting) f in
      let ih = match_level_fits (suc n) t.order rest f' h in
      elim (Bool-cases (wants_more order)) [
        | inl e ↦ rw e (process_trade_fits n order resting f g, ih)
        | inr e ↦ rw e tt
      ]

  match_levels_fits :
      (beyond : D → D → Bool) (n : ℕ) (order : Order D) (book : Book D)
      → FitsOrder order
      → FitsBook book
      → All FitsMessage (match_levels env beyond n order book).sent
  unfolding match_levels
  match_levels_fits beyond n order [] f h = tt
  match_levels_fits beyond n order ((price, level) ∷ rest) f (g, h) =
      let r = match_level env n order level in
      let f' = fits-SameTerms order r.order (match_level-SameTerms env n order level) f in
      let ih = match_levels_fits beyond (n + length r.sent) r.order rest f' h in
      elim (Bool-cases (wants_more order)) [
        | inl e ↦ elim (Bool-cases (beyond order.price price)) [
          | inl e' ↦ rw (e, e') tt
          | inr e' ↦
              rw (e, e') (All-append FitsMessage r.sent _ (match_level_fits n order level f g) ih)
        ]
        | inr e ↦ rw e tt
      ]

module _ {D : Type 0} ⦃d : Double D⦄ where
  settle_fits : (o : Order D) (own : Book D) → FitsOrder o → All FitsMessage (settle o own).sent
  unfolding settle
  settle_fits o own f = elim (Bool-cases (d.eq o.filled_quantity d.nought)) [
    | inl e ↦ rw e (f, tt)
    | inr e ↦ elim (Bool-cases (wants_more o)) [ inl e' ↦ rw (e, e') tt | inr e' ↦ rw (e, e') tt ]
  ]

  -- The ids that an order brings stay in their words, in the books and in the messages it adds.
  pub process_order_fits :
      (env : Env) (now : ℕ) (order : Order D) (e : Engine D)
      → ((n : ℕ) → env.rand n < 2 ^ 32)
      → FitsOrder order
      → FitsEngine e
      → FitsEngine (process_order env now order e)
        × (messages : List (Message D)) × ((process_order env now order e).results
            ≡ e.results ++ messages)
        × All FitsMessage messages
  unfolding match_buy_orders match_sell_orders
  process_order_fits env now order e small f (hb, hs) =
      let books =
        process_order-AllEntries (λ id o. FitsOrder o) (λ id o q g. g) env now order e f hb hs in
      elim (Bool-cases (is_buy order.order_side)) [
        | inl b ↦
            let m = match_buy_orders env e.trades order e.sell_orders in
            let f' =
              fits-SameTerms order m.order
                (match_buy_orders-SameTerms env e.trades order e.sell_orders) f in
            (
              books,
              m.sent ++ (settle m.order e.buy_orders).sent,
              (process_order-buy env now order e b).3,
              All-append FitsMessage m.sent _
                  (match_levels_fits env small d.lt e.trades order e.sell_orders f hs)
                  (settle_fits m.order e.buy_orders f'),
            )
        | inr b ↦
            let m = match_sell_orders env e.trades order e.buy_orders in
            let f' =
              fits-SameTerms order m.order
                (match_sell_orders-SameTerms env e.trades order e.buy_orders) f in
            (
              books,
              m.sent ++ (settle m.order e.sell_orders).sent,
              (process_order-sell env now order e b).3,
              All-append FitsMessage m.sent _
                  (match_levels_fits env small above e.trades order (reverse e.buy_orders) f
                    (All-reverse _ e.buy_orders hb))
                  (settle_fits m.order e.sell_orders f'),
            )
      ]
