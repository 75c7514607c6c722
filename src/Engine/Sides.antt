-- ===== src/Engine/Sides.antt =====
-- `match_buy_orders` and `match_sell_orders` of Engine/Match.antt on a side of the book that satisfies
-- the invariant: the outcome of the loop in each direction.
use match_engine.Prelude.{ℕ, ◌<◌, ◌≡◌, refl, Bool, true, [], ◌∷◌, reverse, arith, All}
use match_engine.Double.{Double, IsRanked, IsExact}
use match_engine.Order.{Order}
use match_engine.OrderedMap.Sorted.{AllKeys, Sorted-with, All-reverse, Sorted-reverse}
use match_engine.Engine.Trade.{Env}
use match_engine.Engine.Match.{
  Level, Book, match_level, match_levels, match_buy_orders, match_sell_orders,
}
use match_engine.Engine.Exact.{IsLive}
use match_engine.Engine.Levels.{IsStatic, match_level-All, match_level-Sorted}
use match_engine.Engine.Sweep.{
  SweepOutcome, SweepOutcome-reverse, IsMonotone, match_levels-All, match_levels-Sorted,
  match_levels-outcome,
}
use match_engine.Engine.Invariant.{IsEntry, IsLevel, Rises, IsBook}

module _ {D : Type 0} ⦃d : Double D⦄ where
  -- The test that ends the loop over the bids.
  abbrev pub above : D → D → Bool
  above own price = d.lt price own

module _ {D : Type 0} ⦃d : Double D⦄ (k : IsRanked D) (x : IsExact D) where
  open k use {is_price, rank}

  match_level-IsLevel :
      (buying : Bool) (env : Env) (n : ℕ) (o : Order D) (price : D) (level : Level D)
      → IsLevel k x buying price level
      → IsLevel k x buying price (match_level env n o level).left
  match_level-IsLevel buying env n o price level h = record {
    price_known = h.price_known;
    ids_rise = match_level-Sorted env n o level h.ids_rise;
    entries =
        match_level-All (λ id o. IsEntry k x buying price id o) entry_static env n o level
          h.entries;
  }
    where
      entry_static : IsStatic (λ id o. IsEntry k x buying price id o)
      entry_static id o q e = record {
        own_id = e.own_id;
        own_price = e.own_price;
        own_rank = e.own_rank;
        own_side = e.own_side;
      }

  pub prices_known :
      (buying : Bool) (book : Book D)
      → All (λ (p, l). IsLevel k x buying p l) book
      → AllKeys (λ p. is_price p ≡ true) book
  prices_known buying [] h = tt
  prices_known buying ((price, level) ∷ book) (p, h) = (p.price_known, prices_known buying book h)

  abbrev Known : D → D → Type 0
  Known a b = (is_price a ≡ true) × (is_price b ≡ true) × (rank a < rank b)

  lt-IsMonotone : (own : D) → is_price own ≡ true → IsMonotone x d.lt Known own
  lt-IsMonotone own o p q b (hp, hq, r) = ground (arith, k.lt_rank own p o hp, k.lt_rank own q o hq)

  above-IsMonotone : (own : D) → is_price own ≡ true → IsMonotone x above (λ a b. Known b a) own
  above-IsMonotone own o p q b (hq, hp, r) =
      ground (arith, k.lt_rank p own hp o, k.lt_rank q own hq o)

  -- Matching against the asks leaves a valid side, and takes the units that it should.
  pub match_buy_orders-outcome :
      (buying : Bool) (env : Env) (n : ℕ) (order : Order D) (book : Book D)
      → is_price order.price ≡ true
      → IsLive x order
      → IsBook k x buying book
      → IsBook k x buying (match_buy_orders env n order book).left
        × SweepOutcome x d.lt order.price order book (match_buy_orders env n order book)
  unfolding match_buy_orders
  match_buy_orders-outcome buying env n order book o v h =
      let known = prices_known buying book h.levels in
      let sorted = Sorted-with (λ p. is_price p ≡ true) (Rises k x) book known h.prices_rise in
      let out =
        match_levels-outcome x d.lt env Known order.price n order book (lt-IsMonotone order.price o)
          refl v h.orders_open sorted in
      (
        record {
          prices_rise = match_levels-Sorted env d.lt (Rises k x) n order book h.prices_rise;
          levels =
              match_levels-All env d.lt (λ p l. IsLevel k x buying p l)
                (match_level-IsLevel buying env) n order book h.levels;
          orders_open = out.left_open;
        },
        out,
      )

  -- Matching against the bids likewise.
  pub match_sell_orders-outcome :
      (buying : Bool) (env : Env) (n : ℕ) (order : Order D) (book : Book D)
      → is_price order.price ≡ true
      → IsLive x order
      → IsBook k x buying book
      → IsBook k x buying (match_sell_orders env n order book).left
        × SweepOutcome x above order.price order book (match_sell_orders env n order book)
  unfolding match_sell_orders
  match_sell_orders-outcome buying env n order book o v h =
      let known = prices_known buying book h.levels in
      let r = match_levels env above n order (reverse book) in
      let falls = Sorted-reverse (Rises k x) book h.prices_rise in
      let left_falls =
        match_levels-Sorted env above (λ a b. Rises k x b a) n order (reverse book) falls in
      let levels =
        match_levels-All env above (λ p l. IsLevel k x buying p l) (match_level-IsLevel buying env)
          n order (reverse book) (All-reverse _ book h.levels) in
      let out =
        match_levels-outcome x above env (λ a b. Known b a) order.price n order (reverse book)
          (above-IsMonotone order.price o) refl v (All-reverse _ book h.orders_open)
          (Sorted-reverse Known book
            (Sorted-with (λ p. is_price p ≡ true) (Rises k x) book known h.prices_rise)) in
      let forward = SweepOutcome-reverse x above order.price order book r out in
      (
        record {
          prices_rise = Sorted-reverse (λ a b. Rises k x b a) r.left left_falls;
          levels = All-reverse _ r.left levels;
          orders_open = forward.left_open;
        },
        forward,
      )
