-- ===== src/Engine/Safety.antt =====
-- `process_order` of Engine/Process.antt and the invariant of Engine/Invariant.antt: each side.
use match_engine.Prelude.{
  ℕ, ◌<◌, ◌≡◌, Bool, true, false, inl, inr, [], ◌∷◌, arith, Bool-cases, reverse,
}
use match_engine.Double.{Double, IsRanked, IsExact}
use match_engine.Order.{Order}
use match_engine.OrderedMap.Sorted.{AllKeys, All-reverse}
use match_engine.Engine.Trade.{Env}
use match_engine.Engine.Match.{Book, Matched, match_buy_orders, match_sell_orders}
use match_engine.Engine.Process.{is_buy, settle}
use match_engine.Engine.Exact.{IsLive, remaining}
use match_engine.Engine.Levels.{SameTerms}
use match_engine.Engine.Sweep.{
  AllOpenBook, eligible, SweepOutcome, match_levels-All, match_levels-SameTerms,
}
use match_engine.Engine.Invariant.{IsBook, IsUncrossed}
use match_engine.Engine.Sides.{above, prices_known}
use match_engine.Engine.Booking.{add_order_to_book-AllKeys, add_order_to_book-IsBook}
use match_engine.Engine.Settle.{settle_cases}

module _ {D : Type 0} ⦃d : Double D⦄ where
  pub match_buy_orders-SameTerms :
      (env : Env) (n : ℕ) (order : Order D) (book : Book D)
      → SameTerms order (match_buy_orders env n order book).order
  unfolding match_buy_orders
  match_buy_orders-SameTerms env n order book = match_levels-SameTerms env d.lt n order book

  pub match_sell_orders-SameTerms :
      (env : Env) (n : ℕ) (order : Order D) (book : Book D)
      → SameTerms order (match_sell_orders env n order book).order
  unfolding match_sell_orders
  match_sell_orders-SameTerms env n order book =
      match_levels-SameTerms env above n order (reverse book)

  pub match_buy_orders-AllKeys :
      (Q : D → Type 0) (env : Env) (n : ℕ) (order : Order D) (book : Book D)
      → AllKeys Q book
      → AllKeys Q (match_buy_orders env n order book).left
  unfolding match_buy_orders
  match_buy_orders-AllKeys Q env n order book h =
      match_levels-All env d.lt (λ p l. Q p) (λ n o p l q. q) n order book h

  pub match_sell_orders-AllKeys :
      (Q : D → Type 0) (env : Env) (n : ℕ) (order : Order D) (book : Book D)
      → AllKeys Q book
      → AllKeys Q (match_sell_orders env n order book).left
  unfolding match_sell_orders
  match_sell_orders-AllKeys Q env n order book h = All-reverse _ _ (
      match_levels-All env above (λ p l. Q p) (λ n o p l q. q) n order (reverse book)
        (All-reverse _ book h))

module _ {D : Type 0} ⦃d : Double D⦄ (k : IsRanked D) (x : IsExact D) where
  open k use {is_price, rank}

  -- Where nothing is eligible, every price is beyond the limit.
  none_eligible :
      (beyond : D → D → Bool) (own : D) (book : Book D)
      → AllOpenBook x book
      → eligible x beyond own book ≡ 0
      → AllKeys (λ p. beyond own p ≡ true) book
  none_eligible beyond own [] h e = tt
  none_eligible beyond own ((price, level) ∷ book) ((o, pos), h) e =
      elim (Bool-cases (beyond own price)) [
        | inl b ↦ (b, none_eligible beyond own book h (ground arith))
        | inr b ↦ absurd (ground arith)
      ]

  AllKeys-map :
      (P Q : D → Type 0) (book : Book D)
      → ((p : D) → is_price p ≡ true → P p → Q p)
      → AllKeys (λ p. is_price p ≡ true) book
      → AllKeys P book
      → AllKeys Q book
  AllKeys-map P Q [] f h q = tt
  AllKeys-map P Q ((price, level) ∷ book) f (h, hs) (q, qs) =
      (f price h q, AllKeys-map P Q book f hs qs)

  -- What an order still asks for, it asks for at a price that crosses nothing which is left.
  pub left_above :
      (own : D) (order : Order D) (book : Book D) (r : Matched D (Book D))
      → is_price own ≡ true
      → IsBook k x false r.left
      → SweepOutcome x d.lt own order book r
      → 0 < remaining x r.order
      → AllKeys (λ ask. rank own < rank ask) r.left
  left_above own order book r o h out pos =
      let e : eligible x d.lt own r.left ≡ 0 = omega (arith, out.order_units, out.eligible_left) in
      AllKeys-map (λ p. d.lt own p ≡ true) (λ p. rank own < rank p) r.left
        (λ p hp b. ground (arith, k.lt_rank own p o hp)) (prices_known k x false r.left h.levels)
        (none_eligible d.lt own r.left out.left_open e)

  pub left_below :
      (own : D) (order : Order D) (book : Book D) (r : Matched D (Book D))
      → is_price own ≡ true
      → IsBook k x true r.left
      → SweepOutcome x above own order book r
      → 0 < remaining x r.order
      → AllKeys (λ bid. rank bid < rank own) r.left
  left_below own order book r o h out pos =
      let e : eligible x above own r.left ≡ 0 = omega (arith, out.order_units, out.eligible_left) in
      AllKeys-map (λ p. d.lt p own ≡ true) (λ p. rank p < rank own) r.left
        (λ p hp b. ground (arith, k.lt_rank p own hp o)) (prices_known k x true r.left h.levels)
        (none_eligible above own r.left out.left_open e)

  pub AllKeys-imp :
      (P Q : D → Type 0) (book : Book D) → ((p : D) → P p → Q p) → AllKeys P book → AllKeys Q book
  AllKeys-imp P Q [] f q = tt
  AllKeys-imp P Q ((price, level) ∷ book) f (q, qs) = (f price q, AllKeys-imp P Q book f qs)

  -- The order's own side after `settle`: valid, and a predicate of prices that the order's price has
  -- if something is left of it.
  pub settle-IsBook :
      (buying : Bool) (order : Order D) (book : Book D) (Q : D → Type 0)
      → IsLive x order
      → 0 < x.units order.quantity
      → is_price order.price ≡ true
      → is_buy order.order_side ≡ buying
      → (0 < remaining x order → Q order.price)
      → IsBook k x buying book
      → AllKeys Q book
      → IsBook k x buying (settle order book).own × AllKeys Q (settle order book).own
  settle-IsBook buying order book Q v pos known side at h q =
      elim (settle_cases x order book v pos) [
        | inl (more, e) ↦ rw e (
          add_order_to_book-IsBook k x buying order book known side
              (record { live = v; remaining_pos = more }) h,
          add_order_to_book-AllKeys Q order book (at more) q,
        )
        | inr (full, e) ↦ rw e (h, q)
      ]

  pub IsUncrossed-flip :
      (buys sells : Book D)
      → IsUncrossed k x buys sells
      → AllKeys (λ ask. AllKeys (λ bid. rank bid < rank ask) buys) sells
  IsUncrossed-flip buys [] u = tt
  IsUncrossed-flip buys ((ask, level) ∷ sells) u = (
    AllKeys-imp (λ b. AllKeys (λ a. rank b < rank a) ((ask, level) ∷ sells))
        (λ b. rank b < rank ask) buys (λ b r. r.0) u,
    IsUncrossed-flip buys sells (
        AllKeys-imp (λ b. AllKeys (λ a. rank b < rank a) ((ask, level) ∷ sells))
          (λ b. AllKeys (λ a. rank b < rank a) sells) buys (λ b r. r.1) u),
  )

  pub IsUncrossed-unflip :
      (buys sells : Book D)
      → AllKeys (λ ask. AllKeys (λ bid. rank bid < rank ask) buys) sells
      → IsUncrossed k x buys sells
  IsUncrossed-unflip [] sells u = tt
  IsUncrossed-unflip ((bid, level) ∷ buys) sells u = (
    AllKeys-imp (λ a. AllKeys (λ b. rank b < rank a) ((bid, level) ∷ buys)) (λ a. rank bid < rank a)
        sells (λ a r. r.0) u,
    IsUncrossed-unflip buys sells (
        AllKeys-imp (λ a. AllKeys (λ b. rank b < rank a) ((bid, level) ∷ buys))
          (λ a. AllKeys (λ b. rank b < rank a) buys) sells (λ a r. r.1) u),
  )
