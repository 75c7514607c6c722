-- ===== src/Engine/Lossy.antt =====
-- One order of Engine/Failing.antt: what the books and the messages hold, whatever sends throw.
use match_engine.Prelude.{
  ℕ, ◌+◌, ◌*◌, ◌≤◌, ◌≡◌, refl, sym, ap, subst, Bool, true, false, inl, inr, arith, Bool-cases,
}
use match_engine.Double.{Double, IsExact}
use match_engine.Order.{Order}
use match_engine.Engine.Trade.{Env}
use match_engine.Engine.Match.{Book, wants_more}
use match_engine.Engine.Process.{Engine, is_buy, settle, matched_engine}
use match_engine.Engine.Exact.{IsLive, remaining}
use match_engine.Engine.Sweep.{open_book}
use match_engine.Engine.Messages.{traded_units}
use match_engine.Engine.Units.{accounted}
use match_engine.Engine.Failing.{
  Faults, Attempt, try_buy_orders, try_sell_orders, try_publish, try_settle, try_orders, try_order,
}
use match_engine.Engine.Unsent.{
  opposite_side, own_side, try_publish-state, try_settle_cases, abandoned-sides, try_settle-state,
}
use match_engine.Engine.Live.{
  AllLiveBook, add_order_to_book-AllLive, IsBounded, try_buy_orders-IsBounded,
  try_sell_orders-IsBounded,
}

module _ {D : Type 0} ⦃d : Double D⦄ (x : IsExact D) where
  settle-AllLive :
      (o : Order D) (own : Book D)
      → IsLive x o
      → AllLiveBook x own
      → AllLiveBook x (settle o own).own
        × (open_book x (settle o own).own ≤ remaining x o + open_book x own)
  unfolding settle
  settle-AllLive o own v h = elim (Bool-cases (d.eq o.filled_quantity d.nought)) [
    | inl z ↦ rw z (add_order_to_book-AllLive x o own v h)
    | inr z ↦ elim (Bool-cases (wants_more o)) [
      | inl w ↦ rw (z, w) (add_order_to_book-AllLive x o own v h)
      | inr w ↦ rw (z, w) (h, omega arith)
    ]
  ]

  try_publish-own_side :
      (faults : Faults) (now : ℕ) (buying : Bool) (a : Attempt D (Book D)) (own : Book D)
      (e : Engine D)
      → own_side buying
          (try_publish faults now (matched_engine buying a.matched (settle a.matched.order own) e))
        ≡ (settle a.matched.order own).own
  unfolding matched_engine
  try_publish-own_side faults now true a own e = (try_publish-state faults now _).0
  try_publish-own_side faults now false a own e = (try_publish-state faults now _).1

  -- The order's own side gets at most what is left of it.
  try_settle-own_side :
      (faults : Faults) (now : ℕ) (buying : Bool) (a : Attempt D (Book D)) (own : Book D)
      (e : Engine D)
      → IsLive x a.matched.order
      → AllLiveBook x own
      → let side = own_side buying (try_settle faults now buying a own e) in
        AllLiveBook x side × (open_book x side ≤ remaining x a.matched.order + open_book x own)
  try_settle-own_side faults now buying a own e v h =
      elim (try_settle_cases faults now buying a own e) [
        | inl lost ↦ rw (lost, (abandoned-sides buying a own e).1) (h, omega arith)
        | inr kept ↦
            rw (kept, try_publish-own_side faults now buying a own e)
              (settle-AllLive a.matched.order own v h)
      ]

  -- All orders of both books are live.
  abbrev pub AllLiveEngine : Engine D → Type 0
  AllLiveEngine e = AllLiveBook x e.buy_orders × AllLiveBook x e.sell_orders

  accounted_sides :
      (buying : Bool) (e : Engine D)
      → accounted x e
        ≡ open_book x (opposite_side buying e)
          + open_book x (own_side buying e)
          + 2 * traded_units x e.results
  accounted_sides true e = omega arith
  accounted_sides false e = refl

  live_sides :
      (buying : Bool) (e : Engine D)
      → AllLiveBook x (opposite_side buying e)
      → AllLiveBook x (own_side buying e)
      → AllLiveEngine e
  live_sides true e opposite own = (own, opposite)
  live_sides false e opposite own = (opposite, own)

  try_settle_bounds :
      (faults : Faults) (now : ℕ) (buying : Bool) (order : Order D) (a : Attempt D (Book D))
      (e : Engine D)
      → IsBounded x order a.matched.order
          (open_book x (opposite_side buying e))
          (open_book x a.matched.left)
          a.matched.sent
      → AllLiveBook x a.matched.left
      → AllLiveBook x (own_side buying e)
      → let e' = try_settle faults now buying a (own_side buying e) e in
        AllLiveEngine e' × (accounted x e' ≤ accounted x e + remaining x order)
  try_settle_bounds faults now buying order a e b lives own =
      let e' = try_settle faults now buying a (own_side buying e) e in
      let (left, sum) = try_settle-state x faults now buying a (own_side buying e) e in
      let (own', more) =
        try_settle-own_side faults now buying a (own_side buying e) e b.after_live own in
      (
        live_sides buying e' (subst (AllLiveBook x) (sym left) lives) own',
        omega (
          arith,
          b.bound,
          sum,
          more,
          ap (open_book x) left,
          accounted_sides buying e,
          accounted_sides buying e',
        ),
      )

  -- Whatever sends throw, an order brings no more units than it has left.
  pub try_order_bounds :
      (faults : Faults) (env : Env) (now : ℕ) (order : Order D) (e : Engine D)
      → IsLive x order
      → AllLiveEngine e
      → let e' = try_order faults env now order e in
        AllLiveEngine e' × (accounted x e' ≤ accounted x e + remaining x order)
  unfolding try_order
  try_order_bounds faults env now order e v (buys, sells) =
      elim (Bool-cases (is_buy order.order_side)) [
        | inl b ↦
            let (h, lives) =
              try_buy_orders-IsBounded x faults.trade_fails env e.trades order e.sell_orders v
                sells in
            rw (b, try_orders)
              (try_settle_bounds faults now true order
                (try_buy_orders faults.trade_fails env e.trades order e.sell_orders) e h lives buys)
        | inr b ↦
            let (h, lives) =
              try_sell_orders-IsBounded x faults.trade_fails env e.trades order e.buy_orders v
                buys in
            rw (b, try_orders)
              (try_settle_bounds faults now false order
                (try_sell_orders faults.trade_fails env e.trades order e.buy_orders) e h lives
                sells)
      ]
