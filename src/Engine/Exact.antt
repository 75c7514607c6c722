-- ===== src/Engine/Exact.antt =====
-- Trades over exact quantities: what `process_trade` of Engine/Trade.antt does to the units of its two
-- orders.
use match_engine.Prelude.{ℕ, ◌+◌, ◌-◌, ◌≤◌, ◌≡◌, true, min, arith, ltb, leb}
use match_engine.Double.{Double, IsExact, min_of}
use match_engine.Order.{Order}
use match_engine.Engine.Trade.{Env, trade_quantity_of, fill, process_trade}
use match_engine.Engine.Match.{wants_more}

module _ {D : Type 0} ⦃d : Double D⦄ (x : IsExact D) where
  open x use {on_grid, units}

  -- Quantities on the grid, and no more filled than asked for.
  pub record IsLive (o : Order D) : Type 0 where
    pub quantity_grid : on_grid o.quantity ≡ true
    pub filled_grid : on_grid o.filled_quantity ≡ true
    pub filled-le : units o.filled_quantity ≤ units o.quantity

  -- What is left to be filled, in units.
  abbrev pub remaining : Order D → ℕ
  remaining o = units o.quantity - units o.filled_quantity

  pub wants_more-remaining : (o : Order D) → IsLive o → wants_more o ≡ ltb 0 (remaining o)
  unfolding wants_more
  wants_more-remaining o v =
      ground (arith, x.lt_units o.filled_quantity o.quantity v.filled_grid v.quantity_grid)

  pub filled_test :
      (o : Order D) → IsLive o → d.le o.quantity o.filled_quantity ≡ leb (remaining o) 0
  filled_test o v =
      ground (arith, x.le_units o.quantity o.filled_quantity v.quantity_grid v.filled_grid)

  remaining_grid :
      (o : Order D)
      → IsLive o
      → (on_grid (d.sub o.quantity o.filled_quantity) ≡ true)
        × (units (d.sub o.quantity o.filled_quantity) ≡ remaining o)
  remaining_grid o v = (
    x.sub_grid o.quantity o.filled_quantity v.quantity_grid v.filled_grid v.filled-le,
    x.sub_units o.quantity o.filled_quantity v.quantity_grid v.filled_grid v.filled-le,
  )

  min_of_units :
      (a b : D)
      → on_grid a ≡ true
      → on_grid b ≡ true
      → (on_grid (min_of a b) ≡ true) × (units (min_of a b) ≡ min (units a) (units b))
  unfolding min_of
  min_of_units a b p q = ground (arith, x.lt_units b a q p)

  -- The quantity of a trade is the smaller of what the two orders have left.
  pub trade_quantity_of_units :
      (a b : Order D)
      → IsLive a
      → IsLive b
      → (on_grid (trade_quantity_of a b) ≡ true)
        × (units (trade_quantity_of a b) ≡ min (remaining a) (remaining b))
  unfolding trade_quantity_of
  trade_quantity_of_units a b u v =
      let (ga, ea) = remaining_grid a u in
      let (gb, eb) = remaining_grid b v in
      let (g, e) =
        min_of_units (d.sub a.quantity a.filled_quantity) (d.sub b.quantity b.filled_quantity) ga
          gb in
      (g, ground arith)

  pub fill-IsLive :
      (q : D) (o : Order D)
      → IsLive o
      → on_grid q ≡ true
      → units q ≤ remaining o
      → IsLive (fill q o) × (remaining (fill q o) ≡ remaining o - units q)
  unfolding fill
  fill-IsLive q o v g h =
      let top = x.units-le o.quantity v.quantity_grid in
      let small : units o.filled_quantity + units q ≤ x.limit = omega arith in
      let e = x.add_units o.filled_quantity q v.filled_grid g small in
      let r = x.add_grid o.filled_quantity q v.filled_grid g small in
      (
        record { quantity_grid = v.quantity_grid; filled_grid = r; filled-le = omega arith },
        omega arith,
      )

  -- Both orders of a trade stay live, and each has the smaller of the two remainders less to fill.
  pub process_trade-IsLive :
      (env : Env) (n : ℕ) (a b : Order D)
      → IsLive a
      → IsLive b
      → let t = process_trade env n a b in
        IsLive t.order
        × IsLive t.opposite
        × (remaining t.order ≡ remaining a - remaining b)
        × (remaining t.opposite ≡ remaining b - remaining a)
  unfolding process_trade
  process_trade-IsLive env n a b u v =
      let (g, e) = trade_quantity_of_units a b u v in
      let (la, ra) = fill-IsLive (trade_quantity_of a b) a u g (omega arith) in
      let (lb, rb) = fill-IsLive (trade_quantity_of a b) b v g (omega arith) in
      (la, lb, omega arith, omega arith)
