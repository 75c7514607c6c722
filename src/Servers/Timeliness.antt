-- ===== src/Servers/Timeliness.antt =====
-- The page of src/HealthCheckServer.cpp against the book of src/MatchingEngine.cpp.
use match_engine.Prelude.{
  ℕ, ◌+◌, ◌-◌, ◌/◌, ◌<◌, ◌≤◌, ◌≡◌, refl, ap, sym, ◌∙◌, subst, true, false, ◌⊎◌, inl, inr, String,
  some, List, [], ◌∷◌, ◌++◌, leb, Bool-cases, arith,
}
use match_engine.Double.{Double}
use match_engine.Order.{Order}
use match_engine.Engine.Trade.{Env}
use match_engine.Engine.Match.{match_buy_orders, match_sell_orders}
use match_engine.Engine.Book.{format_order_book}
use match_engine.Engine.Process.{
  Engine, second, is_buy, settle, matched_engine, match_orders, publish_order_book, process_order,
}
use match_engine.Engine.Throttle.{process_orders, process_order_fresh}
use match_engine.Servers.Table.{table_page, page-table_page}
use match_engine.Servers.Health.{HealthCheckServer, receive_order_book, page}

-- The server after books that arrive one after the other.
unfoldable pub receive_all : List String → HealthCheckServer → HealthCheckServer
receive_all [] s = s
receive_all (text ∷ rest) s = receive_all rest (receive_order_book (some text) s)

receive_all-last :
    (early : List String) (text : String) (s : HealthCheckServer)
    → receive_all (early ++ text ∷ []) s ≡ record { latest_order_book = text }
unfolding receive_all receive_order_book
receive_all-last [] text s = refl
receive_all-last (t ∷ early) text s = receive_all-last early text (receive_order_book (some t) s)

module _ {D : Type 0} ⦃d : Double D⦄ where
  abbrev pub printed : Engine D → String
  printed e = format_order_book e.buy_orders e.sell_orders

  -- The second engine has published nothing since the first, or at this time its own book.
  abbrev IsPublished : ℕ → (e e' : Engine D) → Type 0
  IsPublished now e e' =
      ((e'.published ≡ e.published) × (e'.last_publish_time ≡ e.last_publish_time))
      ⊎ ((e'.published ≡ e.published ++ printed e' ∷ []) × (e'.last_publish_time ≡ now))

  publish_order_book-IsPublished :
      (now : ℕ) (e e' : Engine D)
      → e'.published ≡ e.published
      → e'.last_publish_time ≡ e.last_publish_time
      → IsPublished now e (publish_order_book now e')
  unfolding publish_order_book
  publish_order_book-IsPublished now e e' same time =
      elim (Bool-cases (leb 1 ((now - e'.last_publish_time) / second))) [
        | inl due ↦ rw due (inr (ap (λ l. l ++ printed e' ∷ []) same, refl))
        | inr early ↦ rw early (inl (same, time))
      ]

  process_order-IsPublished :
      (env : Env) (now : ℕ) (order : Order D) (e : Engine D)
      → IsPublished now e (process_order env now order e)
  unfolding process_order
  process_order-IsPublished env now order e = elim (Bool-cases (is_buy order.order_side)) [
    | inl b ↦
        let m = match_buy_orders env e.trades order e.sell_orders in
        rw (b, match_orders)
          (publish_order_book-IsPublished now e
            (matched_engine true m (settle m.order e.buy_orders) e) refl refl)
    | inr b ↦
        let m = match_sell_orders env e.trades order e.buy_orders in
        rw (b, match_orders)
          (publish_order_book-IsPublished now e
            (matched_engine false m (settle m.order e.sell_orders) e) refl refl)
  ]

  process_orders-append :
      (env : Env) (a b : List (ℕ × Order D)) (e : Engine D)
      → process_orders env (a ++ b) e ≡ process_orders env b (process_orders env a e)
  unfolding process_orders
  process_orders-append env [] b e = refl
  process_orders-append env ((now, order) ∷ a) b e =
      process_orders-append env a b (process_order env now order e)

  -- The last book that a run publishes is that of the engine after the order at time `time`, when it
  -- is published.
  abbrev IsLast : Env → List (ℕ × Order D) → (e e' : Engine D) → Type 0
  IsLast env orders e e' =
      (earlier late : List (ℕ × Order D)) × (time : ℕ) × (order : Order D) × (orders
        ≡ earlier ++ (time, order) ∷ late)
      × (before : List String) × (e'.published
          ≡ before ++ printed (process_orders env (earlier ++ (time, order) ∷ []) e) ∷ [])
      × (e'.last_publish_time ≡ time)

  process_orders-IsLast :
      (env : Env) (orders : List (ℕ × Order D)) (e : Engine D)
      → let e' = process_orders env orders e in
        ((e'.published ≡ e.published) × (e'.last_publish_time ≡ e.last_publish_time))
        ⊎ IsLast env orders e e'
  unfolding process_orders
  process_orders-IsLast env [] e = inl (refl, refl)
  process_orders-IsLast env ((now, order) ∷ rest) e =
      let e1 = process_order env now order e in
      elim (process_orders-IsLast env rest e1) [
        | inr (earlier, late, time, o, split, before, last, at) ↦ inr (
          (now, order) ∷ earlier,
          late,
          time,
          o,
          ap (λ l. (now, order) ∷ l) split,
          before,
          last,
          at,
        )
        | inl (same, time) ↦ elim (process_order-IsPublished env now order e) [
          | inl (same', time') ↦ inl (same ∙ same', time ∙ time')
          | inr (one, at) ↦ inr ([], rest, now, order, refl, e.published, same ∙ one, time ∙ at)
        ]
      ]

  run_fresh :
      (env : Env) (orders : List (ℕ × Order D)) (now : ℕ) (order : Order D) (e : Engine D)
      → (process_orders env orders e).last_publish_time ≤ now
      → now < (process_orders env (orders ++ (now, order) ∷ []) e).last_publish_time + second
  unfolding process_orders
  run_fresh env orders now order e h =
      let before = process_orders env orders e in
      let split : process_orders env (orders ++ (now, order) ∷ []) e
          ≡ process_order env now order before =
        process_orders-append env orders ((now, order) ∷ []) e in
      subst (λ (e' : Engine D). now < e'.last_publish_time + second) (sym split)
        (process_order_fresh env now order before h)

  -- Let an engine that has published nothing handle some orders, the last of them at a time that is not
  -- before the last publication, and let the health check server receive all books that it publishes.
  -- Then either there are none, or the page has the table of the engine's two sides as they were behind
  -- one of the orders, less than a second before that time.
  pub page_timely :
      (env : Env) (orders : List (ℕ × Order D)) (now : ℕ) (order : Order D) (e : Engine D)
      (s : HealthCheckServer)
      → e.published ≡ []
      → (process_orders env orders e).last_publish_time ≤ now
      → let all = orders ++ (now, order) ∷ [] in
        let e' = process_orders env all e in
        (e'.published ≡ [])
        ⊎ (earlier late : List (ℕ × Order D)) × (time : ℕ) × (o : Order D) × (all
            ≡ earlier ++ (time, o) ∷ late)
          × (page (receive_all e'.published s)
              ≡ table_page (process_orders env (earlier ++ (time, o) ∷ []) e))
          × (now < time + second)
  page_timely env orders now order e s none_yet h =
      let all = orders ++ (now, order) ∷ [] in
      let fresh = run_fresh env orders now order e h in
      elim (process_orders-IsLast env all e) [
        | inl (same, time) ↦ inl (same ∙ none_yet)
        | inr (earlier, late, time, o, split, before, last, at) ↦
            let shown = printed (process_orders env (earlier ++ (time, o) ∷ []) e) in
            inr (
              earlier,
              late,
              time,
              o,
              split,
              ap page (ap (λ texts. receive_all texts s) last ∙ receive_all-last before shown s)
                  ∙ page-table_page (process_orders env (earlier ++ (time, o) ∷ []) e),
              omega (arith, fresh, at),
            )
      ]
