-- ===== src/Engine/Losses.antt =====
-- What a send that throws in the loop of Engine/Failing.antt costs: the units that the order and the
-- side lose, against those of the trades that were sent.
use match_engine.Prelude.{
  ℕ, suc, ◌+◌, ◌<◌, ◌≡◌, refl, Bool, true, false, inl, inr, List, [], ◌∷◌, arith, Bool-cases,
  length, reverse, min,
}
use match_engine.Double.{Double, IsExact}
use match_engine.Order.{Order}
use match_engine.OrderedMap.Sorted.{All-reverse}
use match_engine.Engine.Trade.{Env, Message, process_trade}
use match_engine.Engine.Match.{Level, Book, wants_more, keep_open, keep_level}
use match_engine.Engine.Exact.{
  IsLive, remaining, wants_more-remaining, filled_test, process_trade-IsLive,
}
use match_engine.Engine.Levels.{AllOpen, open_units}
use match_engine.Engine.Sweep.{AllOpenBook, open_book, open_book-reverse}
use match_engine.Engine.Sides.{above}
use match_engine.Engine.Messages.{traded_units, traded_units-append, process_trade_units}
use match_engine.Engine.Failing.{try_level, try_levels, try_buy_orders, try_sell_orders}

module _ {D : Type 0} ⦃d : Double D⦄ (x : IsExact D) where
  -- Order and side lose the same units: those of the trades that were sent, and `lost`, which is more
  -- than nothing exactly if a send has thrown.
  pub record IsAccounted (order after : Order D) (side left : ℕ) (sent : List (Message D))
      (thrown : Bool) : Type 0 where
    pub lost : ℕ
    pub after_live : IsLive x after
    pub order_sum : remaining x order ≡ traded_units x sent + lost + remaining x after
    pub side_sum : side ≡ traded_units x sent + lost + left
    pub lost_pos : thrown ≡ true → 0 < lost
    pub lost_zero : thrown ≡ false → lost ≡ 0

  untouched :
      (order : Order D) (side : ℕ) → IsLive x order → IsAccounted order order side side [] false
  untouched order side v = record {
    lost = 0;
    after_live = v;
    order_sum = omega arith;
    side_sum = omega arith;
    lost_pos = λ e. cc;
    lost_zero = λ e. refl;
  }

  keep_open_units :
      (id : ℕ) (o : Order D) (level : Level D)
      → IsLive x o
      → open_units x (keep_open id o level) ≡ remaining x o + open_units x level
  unfolding keep_open
  keep_open_units id o level v = ground (arith, filled_test x o v)

  keep_level_units :
      (price : D) (level : Level D) (book : Book D)
      → open_book x (keep_level price level book) ≡ open_units x level + open_book x book
  unfolding keep_level
  keep_level_units price [] book = omega arith
  keep_level_units price (entry ∷ level) book = refl

  module _ (fails : ℕ → Bool) (env : Env) where
    try_level-IsAccounted :
        (n : ℕ) (order : Order D) (level : Level D)
        → IsLive x order
        → AllOpen x level
        → let r = try_level fails env n order level in
          IsAccounted order r.matched.order
            (open_units x level)
            (open_units x r.matched.left)
            r.matched.sent
            r.thrown
    unfolding try_level
    try_level-IsAccounted n order [] v h = untouched order 0 v
    try_level-IsAccounted n order ((id, resting) ∷ rest) v (p, h) =
        let t = process_trade env n order resting in
        let (la, lb, ra, rb) = process_trade-IsLive x env n order resting v p.live in
        let units = process_trade_units x env n order resting v p.live in
        let w = wants_more-remaining x order v in
        let some_left = p.remaining_pos in
        elim (Bool-cases (wants_more order)) [
          | inl e ↦
              let wants : 0 < remaining x order = ground arith in
              elim (Bool-cases (fails n)) [
                | inl f ↦
                    rw (e, f)
                      (record {
                        lost = min (remaining x order) (remaining x resting);
                        after_live = la;
                        order_sum = omega arith;
                        side_sum = omega arith;
                        lost_pos = λ _. omega arith;
                        lost_zero = λ e. cc;
                      })
                | inr f ↦
                    let ih = try_level-IsAccounted (suc n) t.order rest la h in
                    let kept =
                      keep_open_units id t.opposite
                        (try_level fails env (suc n) t.order rest).matched.left lb in
                    rw (e, f)
                      (record {
                        lost = ih.lost;
                        after_live = ih.after_live;
                        order_sum = omega (arith, ih.order_sum);
                        side_sum = omega (arith, ih.side_sum, kept);
                        lost_pos = ih.lost_pos;
                        lost_zero = ih.lost_zero;
                      })
              ]
          | inr e ↦ rw e (untouched order (open_units x ((id, resting) ∷ rest)) v)
        ]

    try_levels-IsAccounted :
        (beyond : D → D → Bool) (n : ℕ) (order : Order D) (book : Book D)
        → IsLive x order
        → AllOpenBook x book
        → let r = try_levels fails env beyond n order book in
          IsAccounted order r.matched.order
            (open_book x book)
            (open_book x r.matched.left)
            r.matched.sent
            r.thrown
    unfolding try_levels
    try_levels-IsAccounted beyond n order [] v h = untouched order 0 v
    try_levels-IsAccounted beyond n order ((price, level) ∷ rest) v ((o, pos), h) =
        let r = try_level fails env n order level in
        let first = try_level-IsAccounted n order level v o in
        let s = try_levels fails env beyond (n + length r.matched.sent) r.matched.order rest in
        let ih =
          try_levels-IsAccounted beyond (n + length r.matched.sent) r.matched.order rest
            first.after_live h in
        let kept = keep_level_units price r.matched.left s.matched.left in
        let sent = traded_units-append x r.matched.sent s.matched.sent in
        let all_units = open_book x ((price, level) ∷ rest) in
        elim (Bool-cases (wants_more order)) [
          | inl e ↦ elim (Bool-cases (beyond order.price price)) [
            | inl b ↦ rw (e, b) (untouched order all_units v)
            | inr b ↦ elim (Bool-cases r.thrown) [
              | inl t ↦
                  rw (e, b, t)
                    (record {
                      lost = first.lost;
                      after_live = first.after_live;
                      order_sum = first.order_sum;
                      side_sum = omega (arith, first.side_sum);
                      lost_pos = λ _. first.lost_pos t;
                      lost_zero = λ e. cc;
                    })
              | inr t ↦
                  let nothing = first.lost_zero t in
                  rw (e, b, t)
                    (record {
                      lost = ih.lost;
                      after_live = ih.after_live;
                      order_sum = omega (arith, first.order_sum, ih.order_sum, sent);
                      side_sum = omega (arith, first.side_sum, ih.side_sum, kept, sent);
                      lost_pos = ih.lost_pos;
                      lost_zero = ih.lost_zero;
                    })
            ]
          ]
          | inr e ↦ rw e (untouched order all_units v)
        ]

    pub try_buy_orders-IsAccounted :
        (n : ℕ) (order : Order D) (asks : Book D)
        → IsLive x order
        → AllOpenBook x asks
        → let r = try_buy_orders fails env n order asks in
          IsAccounted order r.matched.order
            (open_book x asks)
            (open_book x r.matched.left)
            r.matched.sent
            r.thrown
    unfolding try_buy_orders
    try_buy_orders-IsAccounted n order asks v h = try_levels-IsAccounted d.lt n order asks v h

    pub try_sell_orders-IsAccounted :
        (n : ℕ) (order : Order D) (bids : Book D)
        → IsLive x order
        → AllOpenBook x bids
        → let r = try_sell_orders fails env n order bids in
          IsAccounted order r.matched.order
            (open_book x bids)
            (open_book x r.matched.left)
            r.matched.sent
            r.thrown
    unfolding try_sell_orders
    try_sell_orders-IsAccounted n order bids v h =
        let a = try_levels-IsAccounted above n order (reverse bids) v (All-reverse _ bids h) in
        let r = try_levels fails env above n order (reverse bids) in
        record {
          lost = a.lost;
          after_live = a.after_live;
          order_sum = a.order_sum;
          side_sum = omega (
            arith,
            a.side_sum,
            open_book-reverse x above bids,
            open_book-reverse x above r.matched.left,
          );
          lost_pos = a.lost_pos;
          lost_zero = a.lost_zero;
        }
