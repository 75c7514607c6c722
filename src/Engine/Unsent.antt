-- ===== src/Engine/Unsent.antt =====
-- `try_order` of Engine/Failing.antt as a whole: the books and the messages of a round that a send that
-- throws may have ended.
use match_engine.Prelude.{
  ℕ, ◌+◌, ◌-◌, ◌/◌, ◌<◌, ◌≡◌, refl, ap, ◌∙◌, Bool, true, false, ◌⊎◌, inl, inr, ◌++◌, arith,
  Bool-cases, leb, if◌then◌else◌,
}
use mathlib.Core.List.{append-nil}
use match_engine.Double.{Double, IsRanked, IsExact}
use match_engine.Order.{Order}
use match_engine.Engine.Trade.{Env}
use match_engine.Engine.Match.{Book, wants_more}
use match_engine.Engine.Process.{Engine, second, is_buy, settle, matched_engine}
use match_engine.Engine.Settle.{publish_order_book-state}
use match_engine.Engine.Sweep.{open_book}
use match_engine.Engine.Invariant.{IsValid, IsAdmissible}
use match_engine.Engine.Messages.{traded_units, traded_units-append}
use match_engine.Engine.Failing.{
  Faults, Attempt, try_buy_orders, try_sell_orders, try_publish, abandoned, try_settle, try_orders,
  try_order,
}
use match_engine.Engine.Losses.{
  IsAccounted, try_buy_orders-IsAccounted, try_sell_orders-IsAccounted,
}

module _ {D : Type 0} where
  -- The side that an order trades with, and the side that it is booked on.
  abbrev pub opposite_side : (buying : Bool) → Engine D → Book D
  opposite_side buying e = if buying then e.sell_orders else e.buy_orders

  abbrev pub own_side : (buying : Bool) → Engine D → Book D
  own_side buying e = if buying then e.buy_orders else e.sell_orders

module _ {D : Type 0} ⦃d : Double D⦄ where
  -- Whether the loop of a round is ended by a send that throws.
  unfoldable pub loop_throws : Faults → Env → Order D → Engine D → Bool
  loop_throws faults env order e =
      if is_buy order.order_side
      then (try_buy_orders faults.trade_fails env e.trades order e.sell_orders).thrown
      else (try_sell_orders faults.trade_fails env e.trades order e.buy_orders).thrown

  pub try_publish-state :
      (faults : Faults) (now : ℕ) (e : Engine D)
      → ((try_publish faults now e).buy_orders ≡ e.buy_orders)
        × ((try_publish faults now e).sell_orders ≡ e.sell_orders)
        × ((try_publish faults now e).results ≡ e.results)
  unfolding try_publish
  try_publish-state faults now e =
      let (b, s, t, r) = publish_order_book-state now e in
      elim (Bool-cases faults.book_fails) [
        | inl f ↦ elim (Bool-cases (leb 1 ((now - e.last_publish_time) / second))) [
          | inl due ↦ rw (f, due) (refl, refl, refl)
          | inr early ↦ rw (f, early) (refl, refl, refl)
        ]
        | inr f ↦ rw f (b, s, r)
      ]

  pub try_settle_thrown :
      (faults : Faults) (now : ℕ) (buying : Bool) (a : Attempt D (Book D)) (own : Book D)
      (e : Engine D)
      → a.thrown ≡ true
      → try_settle faults now buying a own e ≡ abandoned buying a own e
  unfolding try_settle
  try_settle_thrown faults now buying a own e t = rw t refl

  pub try_settle_cases :
      (faults : Faults) (now : ℕ) (buying : Bool) (a : Attempt D (Book D)) (own : Book D)
      (e : Engine D)
      → (try_settle faults now buying a own e ≡ abandoned buying a own e)
        ⊎ (try_settle faults now buying a own e
            ≡ try_publish faults now
                (matched_engine buying a.matched (settle a.matched.order own) e))
  unfolding try_settle
  try_settle_cases faults now buying a own e = elim (Bool-cases a.thrown) [
    | inl t ↦ inl (rw t refl)
    | inr t ↦ elim (Bool-cases (d.eq a.matched.order.filled_quantity d.nought)) [
      | inl z ↦ elim (Bool-cases faults.unmatched_fails) [
        | inl f ↦ inl (rw (t, z, f) refl)
        | inr f ↦ inr (rw (t, z, f) refl)
      ]
      | inr z ↦ inr (rw (t, z) refl)
    ]
  ]

  pub abandoned-sides :
      (buying : Bool) (a : Attempt D (Book D)) (own : Book D) (e : Engine D)
      → (opposite_side buying (abandoned buying a own e) ≡ a.matched.left)
        × (own_side buying (abandoned buying a own e) ≡ own)
        × ((abandoned buying a own e).results ≡ e.results ++ a.matched.sent)
  unfolding abandoned matched_engine
  abandoned-sides true a own e = (refl, refl, rw (append-nil a.matched.sent) refl)
  abandoned-sides false a own e = (refl, refl, rw (append-nil a.matched.sent) refl)

  matched_engine-opposite_side :
      (buying : Bool) (a : Attempt D (Book D)) (own : Book D) (e : Engine D)
      → opposite_side buying (matched_engine buying a.matched (settle a.matched.order own) e)
        ≡ a.matched.left
  unfolding matched_engine
  matched_engine-opposite_side true a own e = refl
  matched_engine-opposite_side false a own e = refl

  try_publish-opposite_side :
      (faults : Faults) (now : ℕ) (buying : Bool) (e : Engine D)
      → opposite_side buying (try_publish faults now e) ≡ opposite_side buying e
  try_publish-opposite_side faults now true e = (try_publish-state faults now e).1
  try_publish-opposite_side faults now false e = (try_publish-state faults now e).0

module _ {D : Type 0} ⦃d : Double D⦄ (x : IsExact D) where
  pub settle_units : (o : Order D) (own : Book D) → traded_units x (settle o own).sent ≡ 0
  unfolding settle
  settle_units o own = elim (Bool-cases (d.eq o.filled_quantity d.nought)) [
    | inl z ↦ rw z refl
    | inr z ↦ elim (Bool-cases (wants_more o)) [ inl w ↦ rw (z, w) refl | inr w ↦ rw (z, w) refl ]
  ]

  -- The other side is what the loop leaves, and no other trade than the loop's is sent.
  pub try_settle-state :
      (faults : Faults) (now : ℕ) (buying : Bool) (a : Attempt D (Book D)) (own : Book D)
      (e : Engine D)
      → let e' = try_settle faults now buying a own e in
        (opposite_side buying e' ≡ a.matched.left)
        × (traded_units x e'.results ≡ traded_units x e.results + traded_units x a.matched.sent)
  unfolding matched_engine
  try_settle-state faults now buying a own e =
      let sent = traded_units-append x e.results a.matched.sent in
      let s = (settle a.matched.order own).sent in
      let booked = matched_engine buying a.matched (settle a.matched.order own) e in
      elim (try_settle_cases faults now buying a own e) [
        | inl lost ↦
            let (left, _, results) = abandoned-sides buying a own e in
            rw lost (left, ap (traded_units x) results ∙ sent)
        | inr kept ↦ rw kept (
          try_publish-opposite_side faults now buying booked
              ∙ matched_engine-opposite_side buying a own e,
          ap (traded_units x) (try_publish-state faults now booked).2
              ∙ omega (
                arith,
                traded_units-append x e.results (a.matched.sent ++ s),
                traded_units-append x a.matched.sent s,
                settle_units a.matched.order own,
              ),
        )
      ]

  -- What a round costs: the side that the order trades with loses `lost` units that no trade accounts
  -- for, and if a send has thrown these are more than nothing and nothing is booked.
  abbrev pub IsCosted : (buying thrown : Bool) → (e e' : Engine D) → Type 0
  IsCosted buying thrown e e' =
      (lost : ℕ) × (open_book x (opposite_side buying e) + traded_units x e.results
        ≡ open_book x (opposite_side buying e') + traded_units x e'.results + lost)
      × ((thrown ≡ false) × (lost ≡ 0)
          ⊎ (thrown ≡ true) × (0 < lost) × (own_side buying e' ≡ own_side buying e))

  try_settle-IsCosted :
      (faults : Faults) (now : ℕ) (buying : Bool) (order : Order D) (a : Attempt D (Book D))
      (e : Engine D)
      → IsAccounted x order a.matched.order
          (open_book x (opposite_side buying e))
          (open_book x a.matched.left)
          a.matched.sent
          a.thrown
      → IsCosted buying a.thrown e (try_settle faults now buying a (own_side buying e) e)
  try_settle-IsCosted faults now buying order a e h =
      let (left, sum) = try_settle-state faults now buying a (own_side buying e) e in
      (
        h.lost,
        rw left (omega (arith, sum, h.side_sum)),
        elim (Bool-cases a.thrown) [
          | inl t ↦
              let gone = try_settle_thrown faults now buying a (own_side buying e) e t in
              inr (
                t,
                h.lost_pos t,
                ap (own_side buying) gone ∙ (abandoned-sides buying a (own_side buying e) e).1,
              )
          | inr t ↦ inl (t, h.lost_zero t)
        ],
      )

module _ {D : Type 0} ⦃d : Double D⦄ (k : IsRanked D) (x : IsExact D) where
  -- For a valid engine and an admissible order, the units that the other side of the book loses in a
  -- round are those of the trades that are sent, if no send of a trade throws. If one does, the side
  -- loses more, and the order's own side is as it was, though the round is over.
  pub try_order-IsCosted :
      (faults : Faults) (env : Env) (now : ℕ) (order : Order D) (e : Engine D)
      → IsAdmissible k x order
      → IsValid k x e
      → IsCosted x
          (is_buy order.order_side)
          (loop_throws faults env order e)
          e
          (try_order faults env now order e)
  unfolding try_order loop_throws
  try_order-IsCosted faults env now order e a v = elim (Bool-cases (is_buy order.order_side)) [
    | inl b ↦
        rw (b, try_orders)
          (try_settle-IsCosted x faults now true order
            (try_buy_orders faults.trade_fails env e.trades order e.sell_orders) e
            (try_buy_orders-IsAccounted x faults.trade_fails env e.trades order e.sell_orders a.live
              v.sells.orders_open))
    | inr b ↦
        rw (b, try_orders)
          (try_settle-IsCosted x faults now false order
            (try_sell_orders faults.trade_fails env e.trades order e.buy_orders) e
            (try_sell_orders-IsAccounted x faults.trade_fails env e.trades order e.buy_orders a.live
              v.buys.orders_open))
  ]
