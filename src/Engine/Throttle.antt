-- ===== src/Engine/Throttle.antt =====
-- How often `publish_order_book` of Engine/Process.antt publishes, over a whole run of the engine.
use match_engine.Prelude.{
  ℕ, ◌+◌, ◌-◌, ◌/◌, ◌≤◌, ◌<◌, true, false, inl, inr, List, [], ◌∷◌, arith, leb, leb→le, length,
  length-append, Bool-cases, ◌*◌,
}
use match_engine.Double.{Double}
use match_engine.Order.{Order}
use match_engine.Engine.Trade.{Env}
use match_engine.Engine.Match.{match_buy_orders, match_sell_orders}
use match_engine.Engine.Book.{format_order_book}
use match_engine.Engine.Process.{
  Engine, second, is_buy, settle, matched_engine, match_orders, publish_order_book, process_order,
}

module _ {D : Type 0} ⦃d : Double D⦄ where
  -- Orders in the sequence of their arrival, each with the reading of the steady clock at its end.
  unfoldable pub process_orders : Env → List (ℕ × Order D) → Engine D → Engine D
  process_orders env [] e = e
  process_orders env ((now, order) ∷ rest) e =
      process_orders env rest (process_order env now order e)

  -- The readings rise, from `start` to at most `stop`.
  abbrev pub Rising : ℕ → List (ℕ × Order D) → ℕ → Type 0
  Rising start [] stop = start ≤ stop
  Rising start ((now, order) ∷ rest) stop = (start ≤ now) × Rising now rest stop

  Rising-from :
      (early late : ℕ) (orders : List (ℕ × Order D)) (stop : ℕ)
      → early ≤ late
      → Rising late orders stop
      → Rising early orders stop
  Rising-from early late [] stop h r = omega arith
  Rising-from early late ((now, order) ∷ rest) stop h (r, rs) = (omega arith, rs)

  publish_order_book-step :
      (now : ℕ) (e : Engine D)
      → e.last_publish_time ≤ now
      → let e' = publish_order_book now e in
        (e'.last_publish_time ≤ now)
        × (second * length e'.published + e.last_publish_time
            ≤ second * length e.published + e'.last_publish_time)
        × (now ≤ e'.last_publish_time + (second - 1))
  unfolding publish_order_book
  publish_order_book-step now e h =
      elim (Bool-cases (leb 1 ((now - e.last_publish_time) / second))) [
        | inl due ↦
            let late = leb→le 1 ((now - e.last_publish_time) / second) due in
            let one_more =
              length-append e.published (format_order_book e.buy_orders e.sell_orders ∷ []) in
            rw due (omega arith, omega (arith, one_more), omega arith)
        | inr early ↦
            let soon : (now - e.last_publish_time) / second < 1 = ground arith in
            rw early (h, omega arith, omega arith)
      ]

  process_order-step :
      (env : Env) (now : ℕ) (order : Order D) (e : Engine D)
      → e.last_publish_time ≤ now
      → let e' = process_order env now order e in
        (e'.last_publish_time ≤ now)
        × (second * length e'.published + e.last_publish_time
            ≤ second * length e.published + e'.last_publish_time)
        × (now ≤ e'.last_publish_time + (second - 1))
  unfolding process_order
  process_order-step env now order e h = elim (Bool-cases (is_buy order.order_side)) [
    | inl b ↦
        let m = match_buy_orders env e.trades order e.sell_orders in
        rw (b, match_orders)
          (publish_order_book-step now (matched_engine true m (settle m.order e.buy_orders) e) h)
    | inr b ↦
        let m = match_sell_orders env e.trades order e.buy_orders in
        rw (b, match_orders)
          (publish_order_book-step now (matched_engine false m (settle m.order e.sell_orders) e) h)
  ]

  -- If the readings of the steady clock rise from the last publication to at most `stop`, the books
  -- published during a run of orders are no more than the whole seconds between the last
  -- publication and `stop`.
  pub process_orders_rate :
      (env : Env) (orders : List (ℕ × Order D)) (e : Engine D) (stop : ℕ)
      → Rising e.last_publish_time orders stop
      → second * length (process_orders env orders e).published + e.last_publish_time
        ≤ second * length e.published + stop
  unfolding process_orders
  process_orders_rate env [] e stop h = omega arith
  process_orders_rate env ((now, order) ∷ rest) e stop (h, r) =
      let (past, spent, fresh) = process_order-step env now order e h in
      let e' = process_order env now order e in
      let ih = process_orders_rate env rest e' stop (Rising-from _ now rest stop past r) in
      omega arith

  -- If the clock is not behind the last publication, then after an order the last publication is less
  -- than a second old.
  pub process_order_fresh :
      (env : Env) (now : ℕ) (order : Order D) (e : Engine D)
      → e.last_publish_time ≤ now
      → now < (process_order env now order e).last_publish_time + second
  process_order_fresh env now order e h = omega (arith, (process_order-step env now order e h).2)
