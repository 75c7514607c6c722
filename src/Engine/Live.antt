-- ===== src/Engine/Live.antt =====
-- Orders that are not filled by more than they ask for, and what Engine/Failing.antt and Engine/Book.antt do
-- with them, whatever sends throw. An order of a book may have nothing left here.
use match_engine.Prelude.{
  ℕ, suc, ◌+◌, ◌*◌, ◌≤◌, ◌≡◌, refl, Bool, inl, inr, List, [], ◌∷◌, arith, All, Bool-cases, length,
  reverse,
}
use match_engine.Double.{Double, IsExact}
use match_engine.Order.{Order}
use match_engine.OrderedMap.{update}
use match_engine.OrderedMap.Sorted.{All-reverse}
use match_engine.Engine.Trade.{Env, Message, process_trade}
use match_engine.Engine.Match.{Level, Book, wants_more, keep_open, keep_level}
use match_engine.Engine.Book.{put_order, level_of, add_order_to_book}
use match_engine.Engine.Exact.{IsLive, remaining, process_trade-IsLive}
use match_engine.Engine.Levels.{open_units}
use match_engine.Engine.Sweep.{open_book, open_book-reverse}
use match_engine.Engine.Sides.{above}
use match_engine.Engine.Messages.{traded_units, traded_units-append, process_trade_units}
use match_engine.Engine.Failing.{try_level, try_levels, try_buy_orders, try_sell_orders}

module _ {D : Type 0} ⦃d : Double D⦄ (x : IsExact D) where
  abbrev pub AllLive : Level D → Type 0
  AllLive = All λ (id, o). IsLive x o

  abbrev pub AllLiveBook : Book D → Type 0
  AllLiveBook = All λ (price, level). AllLive level

  put_order-AllLive :
      (o : Order D) (level : Level D) → IsLive x o → AllLive level → AllLive (put_order o level)
  unfolding put_order update
  put_order-AllLive o [] v h = (v, tt)
  put_order-AllLive o ((id, a) ∷ level) v (p, h) = ground (arith, put_order-AllLive o level v h)

  -- The order that is replaced, if there is one, takes its units with it.
  put_order-le :
      (o : Order D) (level : Level D)
      → open_units x (put_order o level) ≤ remaining x o + open_units x level
  unfolding put_order update
  put_order-le o [] = omega arith
  put_order-le o ((id, a) ∷ level) = ground (arith, put_order-le o level)

  pub add_order_to_book-AllLive :
      (o : Order D) (book : Book D)
      → IsLive x o
      → AllLiveBook book
      → AllLiveBook (add_order_to_book o book)
        × (open_book x (add_order_to_book o book) ≤ remaining x o + open_book x book)
  unfolding add_order_to_book update level_of
  add_order_to_book-AllLive o [] v h =
      ((put_order-AllLive o [] v tt, tt), omega (arith, put_order-le o []))
  add_order_to_book-AllLive o ((price, level) ∷ book) v (l, h) =
      let (ih, sum) = add_order_to_book-AllLive o book v h in
      elim (Bool-cases (d.lt o.price price)) [
        | inl b ↦ rw b ((put_order-AllLive o [] v tt, (l, h)), omega (arith, put_order-le o []))
        | inr b ↦ elim (Bool-cases (d.lt price o.price)) [
          | inl b' ↦ rw (b, b') ((l, ih), omega (arith, sum))
          | inr b' ↦
              rw (b, b') ((put_order-AllLive o level v l, h), omega (arith, put_order-le o level))
        ]
      ]

  keep_open-AllLive :
      (id : ℕ) (o : Order D) (level : Level D)
      → IsLive x o
      → AllLive level
      → AllLive (keep_open id o level)
        × (open_units x (keep_open id o level) ≤ remaining x o + open_units x level)
  unfolding keep_open
  keep_open-AllLive id o level v h = elim (Bool-cases (d.le o.quantity o.filled_quantity)) [
    | inl e ↦ rw e (h, omega arith)
    | inr e ↦ rw e ((v, h), omega arith)
  ]

  keep_level-AllLive :
      (price : D) (level : Level D) (book : Book D)
      → AllLive level
      → AllLiveBook book
      → AllLiveBook (keep_level price level book)
        × (open_book x (keep_level price level book) ≡ open_units x level + open_book x book)
  unfolding keep_level
  keep_level-AllLive price [] book l h = (h, omega arith)
  keep_level-AllLive price (entry ∷ level) book l h = ((l, h), refl)

  -- What a loop leaves: live orders, and no more units than there were, those of the trades sent once for
  -- the order and once for the side.
  pub record IsBounded (order after : Order D) (side left : ℕ) (sent : List (Message D))
      : Type 0 where
    pub after_live : IsLive x after
    pub bound : 2 * traded_units x sent + left + remaining x after ≤ side + remaining x order

  module _ (fails : ℕ → Bool) (env : Env) where
    try_level-IsBounded :
        (n : ℕ) (order : Order D) (level : Level D)
        → IsLive x order
        → AllLive level
        → let r = try_level fails env n order level in
          IsBounded order r.matched.order
            (open_units x level)
            (open_units x r.matched.left)
            r.matched.sent
          × AllLive r.matched.left
    unfolding try_level
    try_level-IsBounded n order [] v h = (record { after_live = v; bound = omega arith }, tt)
    try_level-IsBounded n order ((id, resting) ∷ rest) v (p, h) =
        let t = process_trade env n order resting in
        let (la, lb, ra, rb) = process_trade-IsLive x env n order resting v p in
        let units = process_trade_units x env n order resting v p in
        elim (Bool-cases (wants_more order)) [
          | inl e ↦ elim (Bool-cases (fails n)) [
            | inl f ↦ rw (e, f) (record { after_live = la; bound = omega arith }, (lb, h))
            | inr f ↦
                let (ih, lives) = try_level-IsBounded (suc n) t.order rest la h in
                let left = (try_level fails env (suc n) t.order rest).matched.left in
                let (kept, sum) = keep_open-AllLive id t.opposite left lb lives in
                rw (e, f)
                  (
                    record {
                      after_live = ih.after_live;
                      bound = omega (arith, ih.bound, sum, units);
                    },
                    kept,
                  )
          ]
          | inr e ↦ rw e (record { after_live = v; bound = omega arith }, (p, h))
        ]

    try_levels-IsBounded :
        (beyond : D → D → Bool) (n : ℕ) (order : Order D) (book : Book D)
        → IsLive x order
        → AllLiveBook book
        → let r = try_levels fails env beyond n order book in
          IsBounded order r.matched.order
            (open_book x book)
            (open_book x r.matched.left)
            r.matched.sent
          × AllLiveBook r.matched.left
    unfolding try_levels
    try_levels-IsBounded beyond n order [] v h =
        (record { after_live = v; bound = omega arith }, tt)
    try_levels-IsBounded beyond n order ((price, level) ∷ rest) v (l, h) =
        let r = try_level fails env n order level in
        let (first, lives) = try_level-IsBounded n order level v l in
        let s = try_levels fails env beyond (n + length r.matched.sent) r.matched.order rest in
        let (ih, lives') =
          try_levels-IsBounded beyond (n + length r.matched.sent) r.matched.order rest
            first.after_live h in
        let (kept, sum) = keep_level-AllLive price r.matched.left s.matched.left lives lives' in
        let sent = traded_units-append x r.matched.sent s.matched.sent in
        elim (Bool-cases (wants_more order)) [
          | inl e ↦ elim (Bool-cases (beyond order.price price)) [
            | inl b ↦ rw (e, b) (record { after_live = v; bound = omega arith }, (l, h))
            | inr b ↦ elim (Bool-cases r.thrown) [
              | inl t ↦
                  rw (e, b, t)
                    (
                      record { after_live = first.after_live; bound = omega (arith, first.bound) },
                      (lives, h),
                    )
              | inr t ↦
                  rw (e, b, t)
                    (
                      record {
                        after_live = ih.after_live;
                        bound = omega (arith, first.bound, ih.bound, sum, sent);
                      },
                      kept,
                    )
            ]
          ]
          | inr e ↦ rw e (record { after_live = v; bound = omega arith }, (l, h))
        ]

    pub try_buy_orders-IsBounded :
        (n : ℕ) (order : Order D) (asks : Book D)
        → IsLive x order
        → AllLiveBook asks
        → let r = try_buy_orders fails env n order asks in
          IsBounded order r.matched.order
            (open_book x asks)
            (open_book x r.matched.left)
            r.matched.sent
          × AllLiveBook r.matched.left
    unfolding try_buy_orders
    try_buy_orders-IsBounded n order asks v h = try_levels-IsBounded d.lt n order asks v h

    pub try_sell_orders-IsBounded :
        (n : ℕ) (order : Order D) (bids : Book D)
        → IsLive x order
        → AllLiveBook bids
        → let r = try_sell_orders fails env n order bids in
          IsBounded order r.matched.order
            (open_book x bids)
            (open_book x r.matched.left)
            r.matched.sent
          × AllLiveBook r.matched.left
    unfolding try_sell_orders
    try_sell_orders-IsBounded n order bids v h =
        let (a, lives) =
          try_levels-IsBounded above n order (reverse bids) v (All-reverse _ bids h) in
        let left = (try_levels fails env above n order (reverse bids)).matched.left in
        (
          record {
            after_live = a.after_live;
            bound =
                omega
                  (arith, a.bound, open_book-reverse x above bids, open_book-reverse x above left);
          },
          All-reverse _ left lives,
        )
