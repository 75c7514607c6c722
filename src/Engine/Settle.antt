-- ===== src/Engine/Settle.antt =====
-- `settle` and `publish_order_book` of Engine/Process.antt, and what the parts of the engine are after
-- an order.
use match_engine.Prelude.{
  ℕ, ◌<◌, ◌≡◌, refl, true, false, ◌⊎◌, inl, inr, ◌++◌, arith, leb, Bool-cases, ◌-◌, ◌/◌, length,
  ◌+◌,
}
use match_engine.Double.{Double, IsExact}
use match_engine.Order.{Order}
use match_engine.Engine.Trade.{Env}
use match_engine.Engine.Match.{Book, wants_more, match_buy_orders, match_sell_orders}
use match_engine.Engine.Book.{add_order_to_book}
use match_engine.Engine.Process.{
  Engine, is_buy, second, settle, publish_order_book, matched_engine, match_orders, process_order,
}
use match_engine.Engine.Exact.{IsLive, remaining, wants_more-remaining}

module _ {D : Type 0} ⦃d : Double D⦄ where
  pub publish_order_book-state :
      (now : ℕ) (e : Engine D)
      → ((publish_order_book now e).buy_orders ≡ e.buy_orders)
        × ((publish_order_book now e).sell_orders ≡ e.sell_orders)
        × ((publish_order_book now e).trades ≡ e.trades)
        × ((publish_order_book now e).results ≡ e.results)
  unfolding publish_order_book
  publish_order_book-state now e =
      elim (Bool-cases (leb 1 ((now - e.last_publish_time) / second))) [
        | inl due ↦ rw due (refl, refl, refl, refl)
        | inr early ↦ rw early (refl, refl, refl, refl)
      ]

  -- The books, the messages and the count of trades after an order that buys.
  pub process_order-buy :
      (env : Env) (now : ℕ) (order : Order D) (e : Engine D)
      → is_buy order.order_side ≡ true
      → let m = match_buy_orders env e.trades order e.sell_orders in
        let s = settle m.order e.buy_orders in
        ((process_order env now order e).buy_orders ≡ s.own)
        × ((process_order env now order e).sell_orders ≡ m.left)
        × ((process_order env now order e).trades ≡ e.trades + length m.sent)
        × ((process_order env now order e).results ≡ e.results ++ (m.sent ++ s.sent))
  unfolding process_order
  process_order-buy env now order e b =
      let m = match_buy_orders env e.trades order e.sell_orders in
      rw (b, match_orders)
        (publish_order_book-state now (matched_engine true m (settle m.order e.buy_orders) e))

  -- The same after an order that sells, or whose side is unknown.
  pub process_order-sell :
      (env : Env) (now : ℕ) (order : Order D) (e : Engine D)
      → is_buy order.order_side ≡ false
      → let m = match_sell_orders env e.trades order e.buy_orders in
        let s = settle m.order e.sell_orders in
        ((process_order env now order e).buy_orders ≡ m.left)
        × ((process_order env now order e).sell_orders ≡ s.own)
        × ((process_order env now order e).trades ≡ e.trades + length m.sent)
        × ((process_order env now order e).results ≡ e.results ++ (m.sent ++ s.sent))
  unfolding process_order
  process_order-sell env now order e b =
      let m = match_sell_orders env e.trades order e.buy_orders in
      rw (b, match_orders)
        (publish_order_book-state now (matched_engine false m (settle m.order e.sell_orders) e))

module _ {D : Type 0} ⦃d : Double D⦄ (x : IsExact D) where
  -- An order with something left goes into its book, a filled one does not.
  pub settle_cases :
      (o : Order D) (own : Book D)
      → IsLive x o
      → 0 < x.units o.quantity
      → ((0 < remaining x o) × ((settle o own).own ≡ add_order_to_book o own))
        ⊎ ((remaining x o ≡ 0) × ((settle o own).own ≡ own))
  unfolding settle
  settle_cases o own v pos =
      let zero_test = x.eq_units o.filled_quantity d.nought v.filled_grid x.nought_grid in
      let w = wants_more-remaining x o v in
      elim (Bool-cases (d.eq o.filled_quantity d.nought)) [
        | inl e ↦ inl (ground (arith, x.nought_units), rw e refl)
        | inr e ↦ elim (Bool-cases (wants_more o)) [
          | inl e' ↦ inl (ground arith, rw (e, e') refl)
          | inr e' ↦ inr (ground arith, rw (e, e') refl)
        ]
      ]
