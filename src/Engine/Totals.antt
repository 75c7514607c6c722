-- ===== src/Engine/Totals.antt =====
-- A whole run of the engine of Engine/Process.antt: where the units that were ordered are.
use match_engine.Prelude.{ℕ, ◌+◌, ◌*◌, ◌≡◌, ◌≢◌, List, [], ◌∷◌, arith, All}
use match_engine.Double.{Double, IsRanked, IsExact}
use match_engine.Order.{Order}
use match_engine.Engine.Trade.{Env}
use match_engine.Engine.Process.{Engine, new_engine, process_order}
use match_engine.Engine.Exact.{remaining}
use match_engine.Engine.Sweep.{open_book}
use match_engine.Engine.Invariant.{IsValid, IsAdmissible}
use match_engine.Engine.Messages.{traded_units}
use match_engine.Engine.Validity.{process_order-IsValid}
use match_engine.Engine.Entries.{process_order-AllEntries}
use match_engine.Engine.Throttle.{process_orders}
use match_engine.Engine.Units.{IsOther, IsFresh, accounted, process_order-accounted}

module _ {D : Type 0} where
  -- No two orders of a run have the same id.
  abbrev pub Distinct : List (ℕ × Order D) → Type 0
  Distinct [] = Unit
  Distinct ((now, order) ∷ rest) =
      All (λ (now, later). order.order_id ≢ later.order_id) rest × Distinct rest

module _ {D : Type 0} ⦃d : Double D⦄ (x : IsExact D) where
  -- What the orders of a run ask for.
  abbrev pub ordered : List (ℕ × Order D) → ℕ
  ordered [] = 0
  ordered ((now, order) ∷ rest) = remaining x order + ordered rest

module _ {D : Type 0} ⦃d : Double D⦄ (k : IsRanked D) (x : IsExact D) where
  AllFresh : Engine D → List (ℕ × Order D) → Type 0
  AllFresh e = All λ (now, order). IsFresh order.order_id e

  AllFresh-process_order :
      (env : Env) (now : ℕ) (order : Order D) (e : Engine D) (rest : List (ℕ × Order D))
      → All (λ (now, later). order.order_id ≢ later.order_id) rest
      → AllFresh e rest
      → AllFresh (process_order env now order e) rest
  unfolding AllFresh
  AllFresh-process_order env now order e [] others fresh = tt
  AllFresh-process_order env now order e ((now', later) ∷ rest) (other, others) ((hb, hs), fresh) =
      (
        process_order-AllEntries (IsOther later.order_id) (λ id o q h. h) env now order e other hb
            hs,
        AllFresh-process_order env now order e rest others fresh,
      )

  process_orders-accounted :
      (env : Env) (orders : List (ℕ × Order D)) (e : Engine D)
      → All (λ (now, order). IsAdmissible k x order) orders
      → Distinct orders
      → AllFresh e orders
      → IsValid k x e
      → IsValid k x (process_orders env orders e)
        × (accounted x (process_orders env orders e) ≡ accounted x e + ordered x orders)
  unfolding AllFresh process_orders
  process_orders-accounted env [] e a ds fresh v = (v, omega arith)
  process_orders-accounted env ((now, order) ∷ rest) e (a, fine) (d', ds) (f, fs) v =
      let e' = process_order env now order e in
      let more = process_order-accounted k x env now order e a v f in
      let (v', sum) =
        process_orders-accounted env rest e' fine ds
          (AllFresh-process_order env now order e rest d' fs)
          (process_order-IsValid k x env now order e a v) in
      (v', omega (arith, sum, more))

  AllFresh-new_engine : (orders : List (ℕ × Order D)) → AllFresh (new_engine D) orders
  unfolding AllFresh new_engine
  AllFresh-new_engine [] = tt
  AllFresh-new_engine (o ∷ rest) = ((tt, tt), AllFresh-new_engine rest)

  new_engine-IsValid : IsValid k x (new_engine D)
  unfolding new_engine
  new_engine-IsValid = record {
    buys = record { prices_rise = tt; levels = tt; orders_open = tt };
    sells = record { prices_rise = tt; levels = tt; orders_open = tt };
    uncrossed = tt;
  }

  -- After any run of admissible orders with different ids on an engine that starts with empty books,
  -- the engine is valid, and the units that the orders asked for are those open in the two books and
  -- twice those of the trades that were sent.
  pub process_orders-IsValid :
      (env : Env) (orders : List (ℕ × Order D))
      → All (λ (now, order). IsAdmissible k x order) orders
      → Distinct orders
      → let e = process_orders env orders (new_engine D) in
        IsValid k x e
        × (ordered x orders
            ≡ open_book x e.buy_orders + open_book x e.sell_orders + 2 * traded_units x e.results)
  unfolding new_engine
  process_orders-IsValid env orders fine ds =
      let (v, sum) =
        process_orders-accounted env orders (new_engine D) fine ds (AllFresh-new_engine orders)
          new_engine-IsValid in
      (v, omega (arith, sum))
