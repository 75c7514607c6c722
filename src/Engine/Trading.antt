-- ===== src/Engine/Trading.antt =====
-- How much an order trades, at which prices, and with which messages: `match_buy_orders` and
-- `match_sell_orders` of Engine/Match.antt on valid sides.
use match_engine.Prelude.{
  ℕ, ◌-◌, ◌≤◌, ◌<◌, ◌≡◌, refl, Bool, true, false, [], ◌∷◌, arith, All, reverse, min,
}
use mathlib.Core.List.{Mem, mem-cons_self, mem-cons_of_mem, mem-append_left, mem-append_right}
use match_engine.Double.{Double, IsRanked, IsExact}
use match_engine.Order.{Order}
use match_engine.OrderedMap.Sorted.{All-reverse}
use match_engine.Engine.Trade.{Env}
use match_engine.Engine.Match.{Level, Book, match_buy_orders, match_sell_orders}
use match_engine.Engine.Exact.{remaining}
use match_engine.Engine.Sweep.{open_book, eligible}
use match_engine.Engine.Invariant.{IsEntry, IsLevel, IsBook, IsAdmissible}
use match_engine.Engine.Sides.{above, match_buy_orders-outcome, match_sell_orders-outcome}
use match_engine.Engine.Priority.{tagged, flatten}
use match_engine.Engine.Messages.{
  IsTradeOf, IsTradeWith, match_levels-trades, match_levels-IsTradeWith, message_units,
  traded_units, match_levels-traded,
}

module _ {D : Type 0} where
  -- The order stands in the side.
  abbrev pub Rests : Book D → Order D → Type 0
  Rests book o = (price : D) × (id : ℕ) × Mem (price, id, o) (flatten book)

  level-Rests :
      (P : Order D → Type 0) (price : D) (level : Level D)
      → ((id : ℕ) (o : Order D) → Mem (price, id, o) (tagged price level) → P o)
      → All (λ (id, o). P o) level
  level-Rests P price [] h = tt
  level-Rests P price ((id', o') ∷ level) h = (
    h id' o' mem-cons_self,
    level-Rests P price level (λ id o m. h id o (mem-cons_of_mem (price, id', o') m)),
  )

  book-Rests :
      (P : Order D → Type 0) (book : Book D)
      → ((o : Order D) → Rests book o → P o)
      → All (λ (p, l). All (λ (id, o). P o) l) book
  book-Rests P [] h = tt
  book-Rests P ((price, level) ∷ book) h = (
    level-Rests P price level (λ id o m. h o (price, id, mem-append_left (flatten book) m)),
    book-Rests P book (λ o (p, id, m). h o (p, id, mem-append_right (tagged price level) m)),
  )

module _ {D : Type 0} ⦃d : Double D⦄ (k : IsRanked D) (x : IsExact D) where
  open k use {is_price, rank}

  -- For an admissible order that buys (its price is a number, its quantities are exact) and a valid side
  -- of asks, whose quantities are exact too, let the eligible units be what all asks that are not above the
  -- order's price have left. The order is filled by the smaller of what
  -- it asks for and the eligible units; the side loses as much, and the trades add up to as much.
  pub match_buy_orders_fill :
      (env : Env) (n : ℕ) (order : Order D) (asks : Book D)
      → IsAdmissible k x order
      → IsBook k x false asks
      → let m = match_buy_orders env n order asks in
        let amount = min (remaining x order) (eligible x d.lt order.price asks) in
        (remaining x m.order ≡ remaining x order - amount)
        × (open_book x m.left ≡ open_book x asks - amount)
        × (traded_units x m.sent ≡ amount)
  unfolding match_buy_orders
  match_buy_orders_fill env n order asks a v =
      let out = (match_buy_orders-outcome k x false env n order asks a.price_known a.live v).1 in
      let sum = (match_levels-traded x env d.lt n order asks a.live v.orders_open).0 in
      (
        omega (arith, out.order_units),
        omega (arith, out.left_units),
        omega (arith, out.order_units, sum),
      )

  -- For an admissible order that sells (its price is a number, its quantities are exact) and a valid side
  -- of bids, whose quantities are exact too, let the eligible units be what all bids that are not below the
  -- order's price have left. The order is filled by the smaller of what it asks for and the eligible units;
  -- the side loses as much, and the trades add up to as much.
  pub match_sell_orders_fill :
      (env : Env) (n : ℕ) (order : Order D) (bids : Book D)
      → IsAdmissible k x order
      → IsBook k x true bids
      → let m = match_sell_orders env n order bids in
        let amount = min (remaining x order) (eligible x above order.price bids) in
        (remaining x m.order ≡ remaining x order - amount)
        × (open_book x m.left ≡ open_book x bids - amount)
        × (traded_units x m.sent ≡ amount)
  unfolding match_sell_orders
  match_sell_orders_fill env n order bids a v =
      let out = (match_sell_orders-outcome k x true env n order bids a.price_known a.live v).1 in
      let sum =
        (match_levels-traded x env above n order (reverse bids) a.live
          (All-reverse _ bids v.orders_open)).0 in
      (
        omega (arith, out.order_units),
        omega (arith, out.left_units),
        omega (arith, out.order_units, sum),
      )

  -- A price that does not end the loop is within the limit of the order, and so is every order there.
  asks_within :
      (buying : Bool) (own : D) (book : Book D)
      → is_price own ≡ true
      → All (λ (p, l). IsLevel k x buying p l) book
      → All (λ (p, l). d.lt own p ≡ false → All (λ (id, o). rank o.price ≤ rank own) l) book
  asks_within buying own [] known h = tt
  asks_within buying own ((price, level) ∷ book) known (v, h) =
      (λ b. within level b v.entries, asks_within buying own book known h)
    where
      within :
          (l : Level D)
          → d.lt own price ≡ false
          → All (λ (id, o). IsEntry k x buying price id o) l
          → All (λ (id, o). rank o.price ≤ rank own) l
      within [] b h = tt
      within ((id, o) ∷ l) b (e, h) =
          (ground (arith, k.lt_rank own price known v.price_known, e.own_rank), within l b h)

  bids_within :
      (buying : Bool) (own : D) (book : Book D)
      → is_price own ≡ true
      → All (λ (p, l). IsLevel k x buying p l) book
      → All (λ (p, l). d.lt p own ≡ false → All (λ (id, o). rank own ≤ rank o.price) l) book
  bids_within buying own [] known h = tt
  bids_within buying own ((price, level) ∷ book) known (v, h) =
      (λ b. within level b v.entries, bids_within buying own book known h)
    where
      within :
          (l : Level D)
          → d.lt price own ≡ false
          → All (λ (id, o). IsEntry k x buying price id o) l
          → All (λ (id, o). rank own ≤ rank o.price) l
      within [] b h = tt
      within ((id, o) ∷ l) b (e, h) =
          (ground (arith, k.lt_rank price own v.price_known known, e.own_rank), within l b h)

  -- For an admissible order that buys and a valid side of asks, all with exact quantities, every message of
  -- the loop is a trade of the order with more than nothing traded; its second order is one of those in the
  -- side but for its filled quantity; the trade is at the price of the second order, which is not above the
  -- order's price; the record names the order and its user as the buyer, and the other order and
  -- its user as the seller.
  pub match_buy_orders_trades :
      (env : Env) (n : ℕ) (order : Order D) (asks : Book D)
      → IsAdmissible k x order
      → IsBook k x false asks
      → All
          (IsTradeOf order (λ p. rank p ≤ rank order.price))
          (match_buy_orders env n order asks).sent
        × All (IsTradeWith (Rests asks)) (match_buy_orders env n order asks).sent
        × All (λ m. 0 < message_units x m) (match_buy_orders env n order asks).sent
  unfolding match_buy_orders
  match_buy_orders_trades env n order asks a v = (
    match_levels-trades env order (λ p. rank p ≤ rank order.price) d.lt n order asks refl
        (asks_within false order.price asks a.price_known v.levels),
    match_levels-IsTradeWith env (Rests asks) d.lt n order asks
        (book-Rests (Rests asks) asks (λ o rests. rests)),
    (match_levels-traded x env d.lt n order asks a.live v.orders_open).1,
  )

  -- For an admissible order that sells and a valid side of bids, all with exact quantities, every message of
  -- the loop is a trade of the order with more than nothing traded; its second order is one of those in the
  -- side but for its filled quantity; the trade is at the price of the second order, which is not below the
  -- order's price. Here too the record names the order that sells, and its user, as the buyer, and
  -- the resting bid and its user as the seller.
  pub match_sell_orders_trades :
      (env : Env) (n : ℕ) (order : Order D) (bids : Book D)
      → IsAdmissible k x order
      → IsBook k x true bids
      → All
          (IsTradeOf order (λ p. rank order.price ≤ rank p))
          (match_sell_orders env n order bids).sent
        × All (IsTradeWith (Rests bids)) (match_sell_orders env n order bids).sent
        × All (λ m. 0 < message_units x m) (match_sell_orders env n order bids).sent
  unfolding match_sell_orders
  match_sell_orders_trades env n order bids a v = (
    match_levels-trades env order (λ p. rank order.price ≤ rank p) above n order (reverse bids) refl
        (All-reverse _ bids (bids_within true order.price bids a.price_known v.levels)),
    match_levels-IsTradeWith env (Rests bids) above n order (reverse bids)
        (All-reverse _ bids (book-Rests (Rests bids) bids (λ o rests. rests))),
    (match_levels-traded x env above n order (reverse bids) a.live
        (All-reverse _ bids v.orders_open)).1,
  )
