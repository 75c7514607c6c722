-- ===== src/Engine/Failing.antt =====
-- src/MatchingEngine.cpp, where a send throws. `zmq::socket_t::send` throws `zmq::error_t`, which
-- nothing catches before `run`: what was changed until then stays changed, and the rest of the round
-- is left out.
use match_engine.Prelude.{
  ℕ, suc, ◌+◌, ◌-◌, ◌/◌, Bool, true, false, [], ◌∷◌, ◌++◌, reverse, length, leb, if◌then◌else◌,
}
use match_engine.Double.{Double}
use match_engine.Order.{Order}
use match_engine.Engine.Trade.{Env, process_trade}
use match_engine.Engine.Match.{Level, Book, Matched, wants_more, keep_open, keep_level}
use match_engine.Engine.Process.{Engine, second, is_buy, settle, matched_engine, publish_order_book}

-- Which sends of a round throw: that of a trade, by its number, that of the unmatched order, and that
-- of the book.
pub record Faults : Type 0 where
  pub trade_fails : ℕ → Bool
  pub unmatched_fails : Bool
  pub book_fails : Bool

-- What a loop leaves, and whether it ended by an exception.
pub record Attempt (D M : Type 0) : Type 0 where
  pub matched : Matched D M
  pub thrown : Bool

module _ {D : Type 0} ⦃d : Double D⦄ (fails : ℕ → Bool) where
  -- The inner loop. An exception leaves the resting order where it is, filled as it is.
  unfoldable pub try_level : Env → ℕ → Order D → Level D → Attempt D (Level D)
  unfolding wants_more keep_open
  try_level env n order [] = record {
    matched = record { order = order; left = []; sent = [] };
    thrown = false;
  }
  try_level env n order ((id, resting) ∷ rest) =
      let t = process_trade env n order resting in
      let r = try_level env (suc n) t.order rest in
      let traded : Attempt D (Level D) = record {
        matched = record {
          order = r.matched.order;
          left = keep_open id t.opposite r.matched.left;
          sent = t.message ∷ r.matched.sent;
        };
        thrown = r.thrown;
      } in
      let failed : Attempt D (Level D) = record {
        matched = record { order = t.order; left = (id, t.opposite) ∷ rest; sent = [] };
        thrown = true;
      } in
      if wants_more order then (if fails n then failed else traded) else record {
        matched = record { order = order; left = (id, resting) ∷ rest; sent = [] };
        thrown = false;
      }

  -- The outer loop. After an exception the price is not looked at again, with orders or without.
  unfoldable pub try_levels :
      Env → (beyond : D → D → Bool) → ℕ → Order D → Book D → Attempt D (Book D)
  unfolding wants_more keep_level
  try_levels env beyond n order [] = record {
    matched = record { order = order; left = []; sent = [] };
    thrown = false;
  }
  try_levels env beyond n order ((price, level) ∷ rest) =
      let r = try_level env n order level in
      let s = try_levels env beyond (n + length r.matched.sent) r.matched.order rest in
      let swept : Attempt D (Book D) = record {
        matched = record {
          order = s.matched.order;
          left = keep_level price r.matched.left s.matched.left;
          sent = r.matched.sent ++ s.matched.sent;
        };
        thrown = s.thrown;
      } in
      let failed : Attempt D (Book D) = record {
        matched = record {
          order = r.matched.order;
          left = (price, r.matched.left) ∷ rest;
          sent = r.matched.sent;
        };
        thrown = true;
      } in
      let stopped : Attempt D (Book D) = record {
        matched = record { order = order; left = (price, level) ∷ rest; sent = [] };
        thrown = false;
      } in
      if wants_more order
      then (if beyond order.price price then stopped else (if r.thrown then failed else swept))
      else stopped

  unfoldable pub try_buy_orders : Env → ℕ → Order D → Book D → Attempt D (Book D)
  try_buy_orders env n buy_order sell_orders = try_levels env d.lt n buy_order sell_orders

  unfoldable pub try_sell_orders : Env → ℕ → Order D → Book D → Attempt D (Book D)
  try_sell_orders env n sell_order buy_orders =
      let r = try_levels env (λ own price. d.lt price own) n sell_order (reverse buy_orders) in
      record {
        matched = record {
          order = r.matched.order;
          left = reverse r.matched.left;
          sent = r.matched.sent;
        };
        thrown = r.thrown;
      }

module _ {D : Type 0} ⦃d : Double D⦄ where
  -- A round that ends by an exception keeps the time at which the book was to be published.
  unfoldable pub try_publish : Faults → ℕ → Engine D → Engine D
  unfolding publish_order_book
  try_publish faults now e =
      if faults.book_fails
      then (if leb 1 ((now - e.last_publish_time) / second)
          then record e { last_publish_time = now }
          else e)
      else publish_order_book now e

  -- The engine where the round ends in the loop, or before the order is booked: the order is gone. A
  -- trade that could not be sent has used a random number and a reading of the clock too.
  unfoldable pub abandoned : Bool → Attempt D (Book D) → Book D → Engine D → Engine D
  unfolding matched_engine
  abandoned buying a own e =
      let m : Matched D (Book D) = a.matched in
      let e' = matched_engine buying m (record { own = own; sent = [] }) e in
      record e' { trades = e.trades + length m.sent + (if a.thrown then 1 else 0) }

  -- `matchOrders` behind its loop.
  unfoldable pub try_settle :
      Faults → ℕ → (buying : Bool) → Attempt D (Book D) → (own : Book D) → Engine D → Engine D
  unfolding abandoned settle try_publish
  try_settle faults now buying a own e =
      let order = a.matched.order in
      let lost = abandoned buying a own e in
      let booked = try_publish faults now (matched_engine buying a.matched (settle order own) e) in
      if a.thrown
      then lost
      else (if d.eq order.filled_quantity d.nought
          then (if faults.unmatched_fails then lost else booked)
          else booked)

  unfoldable pub try_orders : Faults → Env → ℕ → Order D → Bool → Engine D → Engine D
  unfolding try_buy_orders try_sell_orders try_settle
  try_orders faults env now order true e =
      try_settle faults now true
        (try_buy_orders faults.trade_fails env e.trades order e.sell_orders) e.buy_orders e
  try_orders faults env now order false e =
      try_settle faults now false
        (try_sell_orders faults.trade_fails env e.trades order e.buy_orders) e.sell_orders e

  unfoldable pub try_order : Faults → Env → ℕ → Order D → Engine D → Engine D
  unfolding is_buy try_orders
  try_order faults env now order e = try_orders faults env now order (is_buy order.order_side) e
