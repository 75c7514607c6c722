-- ===== src/Servers/Examples.antt =====
-- The theorems on the servers at concrete inputs.
use match_engine.Double.Whole.{whole}
use match_engine.Order.{Order, buy, sell}
use match_engine.Engine.Process.{second, new_engine, process_order}
use match_engine.Engine.Throttle.{process_orders}
use match_engine.Engine.Scenario.{env, order}
use match_engine.Servers.Health.{HealthCheckServer, page}
use match_engine.Servers.Timeliness.{receive_all, page_timely}
use match_engine.Servers.Table.{table_page}
use match_engine.Prelude.{◌+◌, ◌<◌, ◌≤◌, ◌⊎◌, arith, ℕ, ◌≡◌, refl, false, List, [], ◌∷◌, ◌++◌, map}
use match_engine.Servers.Socket.{
  Event, opened, closed, received, skipped, insert, erase, handle_event, handle_events, new_server,
}
use match_engine.Servers.Broadcast.{member, is_open, Rising, broadcast_lem}

abbrev events : List Event
events = opened 3 ∷ opened 1 ∷ skipped ∷ opened 2 ∷ closed 3 ∷ []

broadcast_lem_example :
    let s = handle_events events new_server in
    ((handle_event (received (λ k. false) "book") s).sent
      ≡ s.sent ++ map (λ c. (c, "book")) s.connections)
    × Rising s.connections
    × ((hdl : ℕ) → member hdl s.connections ≡ is_open hdl events false)
unfolding handle_events handle_event insert erase
broadcast_lem_example = broadcast_lem events (λ k. false) "book" (refl, (refl, tt))

abbrev orders : List (ℕ × Order ℕ)
orders = (2_000_000_000, order sell 1 101 5) ∷ []

clock_ahead : (process_orders env orders (new_engine ℕ)).last_publish_time ≤ 2_500_000_000
unfolding process_orders process_order new_engine
clock_ahead = omega arith

page_timely_example :
    let all = orders ++ (2_500_000_000, order buy 9 102 6) ∷ [] in
    let e = new_engine ℕ in
    let e' = process_orders env all e in
    let s : HealthCheckServer = record { latest_order_book = "" } in
    (e'.published ≡ [])
    ⊎ (earlier late : List (ℕ × Order ℕ)) × (time : ℕ) × (o : Order ℕ) × (all
        ≡ earlier ++ (time, o) ∷ late)
      × (page (receive_all e'.published s)
          ≡ table_page (process_orders env (earlier ++ (time, o) ∷ []) e))
      × (2_500_000_000 < time + second)
unfolding new_engine
page_timely_example =
    page_timely env orders 2_500_000_000 (order buy 9 102 6) (new_engine ℕ)
      (record { latest_order_book = "" }) refl clock_ahead
