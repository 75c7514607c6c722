-- ===== src/Engine/Reports.antt =====
-- The messages of one call of `process_order` of Engine/Process.antt.
use mathlib.Core.List.{append-nil}
use match_engine.Prelude.{
  ℕ, ◌+◌, ◌≤◌, ◌<◌, ◌≡◌, ◌≢◌, refl, Bool, ap, true, false, ◌⊎◌, inl, inr, List, [], ◌∷◌, ◌++◌,
  arith, All, Bool-cases,
}
use match_engine.Double.{Double, IsRanked, IsExact}
use match_engine.Order.{Order}
use match_engine.Engine.Trade.{Env, Message, unmatched_order}
use match_engine.Engine.Match.{Book, Matched, wants_more, match_buy_orders, match_sell_orders}
use match_engine.Engine.Process.{Engine, is_buy, settle, process_order}
use match_engine.Engine.Exact.{IsLive, remaining}
use match_engine.Engine.Levels.{SameTerms}
use match_engine.Engine.Invariant.{IsValid, IsAdmissible}
use match_engine.Engine.Messages.{IsTradeOf, message_units, traded_units}
use match_engine.Engine.Settle.{process_order-buy, process_order-sell}
use match_engine.Engine.Safety.{match_buy_orders-SameTerms, match_sell_orders-SameTerms}
use match_engine.Engine.Sides.{match_buy_orders-outcome, match_sell_orders-outcome}
use match_engine.Engine.Trading.{
  match_buy_orders_trades, match_sell_orders_trades, match_buy_orders_fill, match_sell_orders_fill,
}

module _ {D : Type 0} ⦃d : Double D⦄ (x : IsExact D) where
  -- Messages about a new order: trades, each of something; and the order itself, unfilled, if there is
  -- no trade.
  abbrev pub IsReport : (D → Type 0) → Order D → List (Message D) → Type 0
  IsReport Q own messages =
      ((messages ≢ []) × All (IsTradeOf own Q) messages × All (λ m. 0 < message_units x m) messages)
      ⊎ (o : Order D) × (messages ≡ unmatched_order o ∷ [])
        × SameTerms own o
        × (x.units o.filled_quantity ≡ 0)

  some_units : (messages : List (Message D)) → 0 < traded_units x messages → messages ≢ []
  some_units [] h = absurd (omega arith)
  some_units (m ∷ ms) h = λ e. cc

  no_units :
      (messages : List (Message D))
      → traded_units x messages ≡ 0
      → All (λ m. 0 < message_units x m) messages
      → messages ≡ []
  no_units [] e h = refl
  no_units (m ∷ ms) e (p, h) = absurd (omega arith)

  settle_sent :
      (o : Order D) (own : Book D)
      → d.eq o.filled_quantity d.nought ≡ false
      → (settle o own).sent ≡ []
  unfolding settle
  settle_sent o own e = elim (Bool-cases (wants_more o)) [
    | inl e' ↦ rw (e, e') refl
    | inr e' ↦ rw (e, e') refl
  ]

  settle-IsReport :
      (Q : D → Type 0) (order : Order D) (m : Matched D (Book D)) (own : Book D)
      → IsLive x m.order
      → SameTerms order m.order
      → x.units order.filled_quantity ≡ 0
      → x.units m.order.filled_quantity ≡ traded_units x m.sent
      → All (IsTradeOf order Q) m.sent
      → All (λ t. 0 < message_units x t) m.sent
      → IsReport Q order (m.sent ++ (settle m.order own).sent)
  unfolding settle
  settle-IsReport Q order m own v same new sum trades each =
      let zero_test = x.eq_units m.order.filled_quantity d.nought v.filled_grid x.nought_grid in
      elim (Bool-cases (d.eq m.order.filled_quantity d.nought)) [
        | inl e ↦
            let none_sent = no_units m.sent (ground (arith, x.nought_units)) each in
            inr (m.order, rw (none_sent, e) refl, same, ground (arith, x.nought_units))
        | inr e ↦
            let positive : 0 < traded_units x m.sent = ground (arith, x.nought_units) in
            inl (
              rw (settle_sent m.order own e, append-nil m.sent)
                (some_units m.sent positive, trades, each))
      ]

module _ {D : Type 0} ⦃d : Double D⦄ (k : IsRanked D) (x : IsExact D) where
  open k use {rank}

  -- A price that an order accepts: not above its own if it buys, not below if it sells.
  abbrev pub Accepts : (buying : Bool) → (own price : D) → Type 0
  Accepts true own price = rank price ≤ rank own
  Accepts false own price = rank own ≤ rank price

  filled_units :
      (order o : Order D)
      → IsLive x order
      → IsLive x o
      → SameTerms order o
      → x.units order.filled_quantity ≡ 0
      → (n : ℕ) → remaining x order ≡ n + remaining x o
      → x.units o.filled_quantity ≡ n
  filled_units order o v w same new n sum =
      let size : x.units o.quantity ≡ x.units order.quantity =
        ap (λ (a : Order D). x.units a.quantity) same in
      omega (arith, v.filled-le, w.filled-le)

  -- For a valid engine and an admissible order of which nothing is filled, the messages that the order
  -- adds are either trades of the order, at least one, each of something and at a price that the order
  -- accepts; or the one message that it is unmatched, with its terms and nothing filled.
  pub process_order-IsReport :
      (env : Env) (now : ℕ) (order : Order D) (e : Engine D)
      → IsAdmissible k x order
      → x.units order.filled_quantity ≡ 0
      → IsValid k x e
      → (messages : List (Message D)) × ((process_order env now order e).results
          ≡ e.results ++ messages)
        × IsReport x (Accepts (is_buy order.order_side) order.price) order messages
  process_order-IsReport env now order e a new v = elim (Bool-cases (is_buy order.order_side)) [
    | inl b ↦
        let m = match_buy_orders env e.trades order e.sell_orders in
        let (left, out) =
          match_buy_orders-outcome k x false env e.trades order e.sell_orders a.price_known a.live
            v.sells in
        let same = match_buy_orders-SameTerms env e.trades order e.sell_orders in
        let (trades, resting, each) =
          match_buy_orders_trades k x env e.trades order e.sell_orders a v.sells in
        let fill = match_buy_orders_fill k x env e.trades order e.sell_orders a v.sells in
        let sum =
          filled_units order m.order a.live out.order_live same new (traded_units x m.sent)
            (omega (arith, fill)) in
        (
          m.sent ++ (settle m.order e.buy_orders).sent,
          (process_order-buy env now order e b).3,
          rw b (
              settle-IsReport x (Accepts true order.price) order m e.buy_orders out.order_live same
                new sum trades each),
        )
    | inr b ↦
        let m = match_sell_orders env e.trades order e.buy_orders in
        let (left, out) =
          match_sell_orders-outcome k x true env e.trades order e.buy_orders a.price_known a.live
            v.buys in
        let same = match_sell_orders-SameTerms env e.trades order e.buy_orders in
        let (trades, resting, each) =
          match_sell_orders_trades k x env e.trades order e.buy_orders a v.buys in
        let fill = match_sell_orders_fill k x env e.trades order e.buy_orders a v.buys in
        let sum =
          filled_units order m.order a.live out.order_live same new (traded_units x m.sent)
            (omega (arith, fill)) in
        (
          m.sent ++ (settle m.order e.sell_orders).sent,
          (process_order-sell env now order e b).3,
          rw b (
              settle-IsReport x (Accepts false order.price) order m e.sell_orders out.order_live
                same new sum trades each),
        )
  ]
