-- ===== src/Engine/Validity.antt =====
-- `process_order` of Engine/Process.antt and the invariant of Engine/Invariant.antt: admissible orders.
use match_engine.Prelude.{
  ℕ, ◌<◌, ◌≡◌, sym, ap, ◌∙◌, subst, true, false, inl, inr, arith, Bool-cases,
}
use match_engine.Double.{Double, IsRanked, IsExact}
use match_engine.Order.{Order}
use match_engine.OrderedMap.Sorted.{AllKeys}
use match_engine.Engine.Trade.{Env}
use match_engine.Engine.Match.{match_buy_orders, match_sell_orders}
use match_engine.Engine.Process.{Engine, is_buy, settle, process_order}
use match_engine.Engine.Invariant.{IsValid, IsAdmissible}
use match_engine.Engine.Sides.{match_buy_orders-outcome, match_sell_orders-outcome}
use match_engine.Engine.Settle.{process_order-buy, process_order-sell}
use match_engine.Engine.Safety.{
  match_buy_orders-SameTerms, match_sell_orders-SameTerms, match_buy_orders-AllKeys,
  match_sell_orders-AllKeys, left_above, left_below, AllKeys-imp, settle-IsBook, IsUncrossed-flip,
  IsUncrossed-unflip,
}

module _ {D : Type 0} ⦃d : Double D⦄ (k : IsRanked D) (x : IsExact D) where
  open k use {is_price, rank}

  buy-IsValid :
      (env : Env) (now : ℕ) (order : Order D) (e : Engine D)
      → is_buy order.order_side ≡ true
      → IsAdmissible k x order
      → IsValid k x e
      → IsValid k x (process_order env now order e)
  buy-IsValid env now order e b a v =
      let m = match_buy_orders env e.trades order e.sell_orders in
      let same = match_buy_orders-SameTerms env e.trades order e.sell_orders in
      let (left, out) =
        match_buy_orders-outcome k x false env e.trades order e.sell_orders a.price_known a.live
          v.sells in
      let price : m.order.price ≡ order.price = ap (λ (o : Order D). o.price) same in
      let size : m.order.quantity ≡ order.quantity = ap (λ (o : Order D). o.quantity) same in
      let side : m.order.order_side ≡ order.order_side = ap (λ (o : Order D). o.order_side) same in
      let Q : D → Type 0 = λ bid. AllKeys (λ ask. rank bid < rank ask) m.left in
      let (own, uncrossed) =
        settle-IsBook k x true m.order e.buy_orders Q out.order_live
          (omega (arith, ap x.units size)) (ap is_price price ∙ a.price_known) (ap is_buy side ∙ b)
          (λ more.
            subst (λ (p : D). AllKeys (λ ask. rank p < rank ask) m.left) (sym price)
              (left_above k x order.price order e.sell_orders m a.price_known left out more))
          v.buys
          (AllKeys-imp k x (λ bid. AllKeys (λ ask. rank bid < rank ask) e.sell_orders) Q
            e.buy_orders
            (λ bid h.
              match_buy_orders-AllKeys (λ ask. rank bid < rank ask) env e.trades order e.sell_orders
                h)
            v.uncrossed) in
      let parts = process_order-buy env now order e b in
      record {
        buys = rw parts.0 own;
        sells = rw parts.1 left;
        uncrossed = rw (parts.0, parts.1) uncrossed;
      }

  sell-IsValid :
      (env : Env) (now : ℕ) (order : Order D) (e : Engine D)
      → is_buy order.order_side ≡ false
      → IsAdmissible k x order
      → IsValid k x e
      → IsValid k x (process_order env now order e)
  sell-IsValid env now order e b a v =
      let m = match_sell_orders env e.trades order e.buy_orders in
      let same = match_sell_orders-SameTerms env e.trades order e.buy_orders in
      let (left, out) =
        match_sell_orders-outcome k x true env e.trades order e.buy_orders a.price_known a.live
          v.buys in
      let price : m.order.price ≡ order.price = ap (λ (o : Order D). o.price) same in
      let size : m.order.quantity ≡ order.quantity = ap (λ (o : Order D). o.quantity) same in
      let side : m.order.order_side ≡ order.order_side = ap (λ (o : Order D). o.order_side) same in
      let Q : D → Type 0 = λ ask. AllKeys (λ bid. rank bid < rank ask) m.left in
      let (own, uncrossed) =
        settle-IsBook k x false m.order e.sell_orders Q out.order_live
          (omega (arith, ap x.units size)) (ap is_price price ∙ a.price_known) (ap is_buy side ∙ b)
          (λ more.
            subst (λ (p : D). AllKeys (λ bid. rank bid < rank p) m.left) (sym price)
              (left_below k x order.price order e.buy_orders m a.price_known left out more))
          v.sells
          (AllKeys-imp k x (λ ask. AllKeys (λ bid. rank bid < rank ask) e.buy_orders) Q
            e.sell_orders
            (λ ask h.
              match_sell_orders-AllKeys (λ bid. rank bid < rank ask) env e.trades order e.buy_orders
                h)
            (IsUncrossed-flip k x e.buy_orders e.sell_orders v.uncrossed)) in
      let parts = process_order-sell env now order e b in
      record {
        buys = rw parts.0 left;
        sells = rw parts.1 own;
        uncrossed =
            rw (parts.0, parts.1)
              (IsUncrossed-unflip k x m.left (settle m.order e.sell_orders).own uncrossed);
      }

  -- For a valid engine and an admissible order, the engine is valid after the order: both sides
  -- sorted and without empty prices, every resting order open and filed under its own id, price and
  -- side, and every bid below every ask.
  pub process_order-IsValid :
      (env : Env) (now : ℕ) (order : Order D) (e : Engine D)
      → IsAdmissible k x order
      → IsValid k x e
      → IsValid k x (process_order env now order e)
  process_order-IsValid env now order e a v = elim (Bool-cases (is_buy order.order_side)) [
    | inl b ↦ buy-IsValid env now order e b a v
    | inr b ↦ sell-IsValid env now order e b a v
  ]
