-- ===== src/Engine/Resent.antt =====
-- An order that comes again while it stands in the book of Engine/Process.antt, as the generator sends
-- stored orders again when it is restarted.
use mathlib.Core.List.{append-nil, reverse-reverse}
use match_engine.Prelude.{
  ℕ, ◌<◌, ◌≡◌, refl, ap, ◌∙◌, subst, Bool, true, false, ◌⊎◌, inl, inr, [], ◌∷◌, ◌++◌, reverse,
  arith, Bool-cases,
}
use match_engine.Double.{Double, IsRanked, IsExact}
use match_engine.Order.{Order}
use match_engine.OrderedMap.Sorted.{AllKeys, All-reverse}
use match_engine.Engine.Trade.{Env, unmatched_order}
use match_engine.Engine.Match.{Book, Matched, wants_more, match_buy_orders, match_sell_orders}
use match_engine.Engine.Process.{Engine, is_buy, settle, process_order}
use match_engine.Engine.Invariant.{IsValid}
use match_engine.Engine.Settle.{process_order-buy, process_order-sell}
use match_engine.Engine.Safety.{IsUncrossed-flip}
use match_engine.Engine.Unsent.{own_side}
use match_engine.Engine.Sides.{above, prices_known}
use match_engine.Engine.Booked.{IsResting, match_levels-none, booked, settle-again}

module _ {D : Type 0} where
  -- What stays, and what is added to the messages, where an order comes again.
  abbrev pub IsUnmoved : Order D → (e e' : Engine D) → Type 0
  IsUnmoved order e e' =
      (e'.buy_orders ≡ e.buy_orders)
      × (e'.sell_orders ≡ e.sell_orders)
      × ((e'.results ≡ e.results) ⊎ (e'.results ≡ e.results ++ unmatched_order order ∷ []))

module _ {D : Type 0} ⦃d : Double D⦄ where
  settle_messages :
      (o : Order D) (own : Book D)
      → ((settle o own).sent ≡ []) ⊎ ((settle o own).sent ≡ unmatched_order o ∷ [])
  unfolding settle
  settle_messages o own = elim (Bool-cases (d.eq o.filled_quantity d.nought)) [
    | inl e ↦ inr (rw e refl)
    | inr e ↦ elim (Bool-cases (wants_more o)) [
      | inl e' ↦ inl (rw (e, e') refl)
      | inr e' ↦ inl (rw (e, e') refl)
    ]
  ]

  match_sell_orders-none :
      (env : Env) (n : ℕ) (order : Order D) (book : Book D)
      → AllKeys (λ p. above order.price p ≡ true) book
      → match_sell_orders env n order book ≡ record { order = order; left = book; sent = [] }
  unfolding match_sell_orders
  match_sell_orders-none env n order book h =
      ap
        (λ (m : Matched D (Book D)). record {
          order = m.order;
          left = reverse m.left;
          sent = m.sent;
        })
        (match_levels-none env above n order (reverse book) (All-reverse _ book h))
      ∙ ap (λ l. record { order = order; left = l; sent = [] }) (reverse-reverse book)

module _ {D : Type 0} ⦃d : Double D⦄ (k : IsRanked D) (x : IsExact D) where
  open k use {is_price, rank}

  -- A test of prices by their ranks, on all prices of a side.
  all_tested :
      (P : D → Type 0) (test : D → Bool) (book : Book D)
      → ((p : D) → is_price p ≡ true → P p → test p ≡ true)
      → AllKeys (λ p. is_price p ≡ true) book
      → AllKeys P book
      → AllKeys (λ p. test p ≡ true) book
  all_tested P test [] f known h = tt
  all_tested P test ((price, level) ∷ book) f (known, ks) (p, h) =
      (f price known p, all_tested P test book f ks h)

  added_messages :
      (order : Order D) (own : Book D) (e : Engine D)
      → let results = e.results ++ ([] ++ (settle order own).sent) in
        (results ≡ e.results) ⊎ (results ≡ e.results ++ unmatched_order order ∷ [])
  added_messages order own e = elim (settle_messages order own) [
    | inl h ↦ inl (rw h (append-nil e.results))
    | inr h ↦ inr (rw h refl)
  ]

  buy-IsUnmoved :
      (env : Env) (now : ℕ) (order : Order D) (e : Engine D)
      → is_buy order.order_side ≡ true
      → IsValid k x e
      → IsResting order e.buy_orders
      → IsUnmoved order e (process_order env now order e)
  unfolding match_buy_orders
  buy-IsUnmoved env now order e b v r =
      let there = booked k x true order e.buy_orders r v.buys in
      let (q, asks, same) =
        there.at_price (λ bid. AllKeys (λ ask. rank bid < rank ask) e.sell_orders) v.uncrossed in
      let known = prices_known k x false e.sell_orders v.sells.levels in
      let none_eligible =
        all_tested (λ ask. rank q < rank ask) (d.lt order.price) e.sell_orders
          (λ ask known r. ground (arith, k.lt_rank order.price ask there.own_price known, same))
          known asks in
      let quiet : match_buy_orders env e.trades order e.sell_orders
          ≡ record { order = order; left = e.sell_orders; sent = [] } =
        match_levels-none env d.lt e.trades order e.sell_orders none_eligible in
      let parts = process_order-buy env now order e b in
      let results =
        parts.3
        ∙ ap
            (λ (m : Matched D (Book D)).
              e.results ++ (m.sent ++ (settle m.order e.buy_orders).sent))
            quiet in
      (
        parts.0
            ∙ ap (λ (m : Matched D (Book D)). (settle m.order e.buy_orders).own) quiet
            ∙ settle-again k x true order e.buy_orders there,
        parts.1 ∙ ap (λ (m : Matched D (Book D)). m.left) quiet,
        rw results (added_messages order e.buy_orders e),
      )

  sell-IsUnmoved :
      (env : Env) (now : ℕ) (order : Order D) (e : Engine D)
      → is_buy order.order_side ≡ false
      → IsValid k x e
      → IsResting order e.sell_orders
      → IsUnmoved order e (process_order env now order e)
  sell-IsUnmoved env now order e b v r =
      let there = booked k x false order e.sell_orders r v.sells in
      let (q, bids, same) =
        there.at_price (λ ask. AllKeys (λ bid. rank bid < rank ask) e.buy_orders)
          (IsUncrossed-flip k x e.buy_orders e.sell_orders v.uncrossed) in
      let known = prices_known k x true e.buy_orders v.buys.levels in
      let none_eligible =
        all_tested (λ bid. rank bid < rank q) (above order.price) e.buy_orders
          (λ bid known r. ground (arith, k.lt_rank bid order.price known there.own_price, same))
          known bids in
      let quiet = match_sell_orders-none env e.trades order e.buy_orders none_eligible in
      let parts = process_order-sell env now order e b in
      let results =
        parts.3
        ∙ ap
            (λ (m : Matched D (Book D)).
              e.results ++ (m.sent ++ (settle m.order e.sell_orders).sent))
            quiet in
      (
        parts.0 ∙ ap (λ (m : Matched D (Book D)). m.left) quiet,
        parts.1
            ∙ ap (λ (m : Matched D (Book D)). (settle m.order e.sell_orders).own) quiet
            ∙ settle-again k x false order e.sell_orders there,
        rw results (added_messages order e.sell_orders e),
      )

  -- If an order comes again that stands in the book of a valid engine just as it comes, then both
  -- sides stay as they are, and nothing is traded: there is no message, or the one that the order is
  -- unmatched.
  pub process_order-IsResting :
      (env : Env) (now : ℕ) (order : Order D) (e : Engine D)
      → IsValid k x e
      → IsResting order (own_side (is_buy order.order_side) e)
      → IsUnmoved order e (process_order env now order e)
  process_order-IsResting env now order e v r = elim (Bool-cases (is_buy order.order_side)) [
    | inl b ↦
        buy-IsUnmoved env now order e b v
          (subst (λ buying. IsResting order (own_side buying e)) b r)
    | inr b ↦
        sell-IsUnmoved env now order e b v
          (subst (λ buying. IsResting order (own_side buying e)) b r)
  ]
