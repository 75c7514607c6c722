-- ===== src/Engine/Match.antt =====
-- src/MatchingEngine.cpp: the two loops over the opposite side of the book. A side is a map from
-- prices to the orders at that price, and these are a map from order ids. `n` is the number of trades
-- made before the loop. A loop returns the order, what is left of the map, and the messages sent.
use match_engine.Prelude.{ℕ, suc, ◌+◌, Bool, List, [], ◌∷◌, ◌++◌, reverse, length, if◌then◌else◌}
use match_engine.Double.{Double}
use match_engine.Order.{Order}
use match_engine.OrderedMap.{OrderedMap}
use match_engine.Engine.Trade.{Env, Message, process_trade}

abbrev pub Level : Type 0 → Type 0
Level D = OrderedMap ℕ (Order D)

abbrev pub Book : Type 0 → Type 0
Book D = OrderedMap D (Level D)

pub record Matched (D M : Type 0) : Type 0 where
  pub order : Order D
  pub left : M
  pub sent : List (Message D)

module _ {D : Type 0} ⦃d : Double D⦄ where
  -- `order.quantity > order.filledQuantity`.
  unfoldable pub wants_more : Order D → Bool
  wants_more o = d.lt o.filled_quantity o.quantity

  -- A resting order that is filled is erased, another one stays.
  unfoldable pub keep_open : ℕ → Order D → Level D → Level D
  keep_open id o level = if d.le o.quantity o.filled_quantity then level else (id, o) ∷ level

  -- The inner loop.
  unfoldable pub match_level : Env → ℕ → Order D → Level D → Matched D (Level D)
  unfolding wants_more keep_open
  match_level env n order [] = record { order = order; left = []; sent = [] }
  match_level env n order ((id, resting) ∷ rest) =
      let t = process_trade env n order resting in
      let r = match_level env (suc n) t.order rest in
      let traded : Matched D (Level D) = record {
        order = r.order;
        left = keep_open id t.opposite r.left;
        sent = t.message ∷ r.sent;
      } in
      if wants_more order
      then traded
      else record { order = order; left = (id, resting) ∷ rest; sent = [] }

  -- A price without orders is erased.
  unfoldable pub keep_level : D → Level D → Book D → Book D
  keep_level price [] book = book
  keep_level price (entry ∷ level) book = (price, entry ∷ level) ∷ book

  -- The outer loop, over the prices in the order of iteration. `beyond own price` is the test that
  -- ends it, on the order's own price.
  unfoldable pub match_levels :
      Env → (beyond : D → D → Bool) → ℕ → Order D → Book D → Matched D (Book D)
  unfolding wants_more keep_level
  match_levels env beyond n order [] = record { order = order; left = []; sent = [] }
  match_levels env beyond n order ((price, level) ∷ rest) =
      let r = match_level env n order level in
      let s = match_levels env beyond (n + length r.sent) r.order rest in
      let swept : Matched D (Book D) = record {
        order = s.order;
        left = keep_level price r.left s.left;
        sent = r.sent ++ s.sent;
      } in
      let stopped : Matched D (Book D) = record {
        order = order;
        left = (price, level) ∷ rest;
        sent = [];
      } in
      if wants_more order then (if beyond order.price price then stopped else swept) else stopped

  -- From the lowest price; `buyOrder.price < sellPrice` ends the loop.
  unfoldable pub match_buy_orders : Env → ℕ → Order D → Book D → Matched D (Book D)
  match_buy_orders env n buy_order sell_orders = match_levels env d.lt n buy_order sell_orders

  -- From the highest price, by reverse iterators; `sellOrder.price > buyPrice` ends the loop.
  unfoldable pub match_sell_orders : Env → ℕ → Order D → Book D → Matched D (Book D)
  match_sell_orders env n sell_order buy_orders =
      let r = match_levels env (λ own price. d.lt price own) n sell_order (reverse buy_orders) in
      record { order = r.order; left = reverse r.left; sent = r.sent }
