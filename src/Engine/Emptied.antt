-- ===== src/Engine/Emptied.antt =====
-- src/MatchingEngine.cpp: the resting order of a trade whose send throws, as the loops of Engine/Failing.antt
-- leave it, and the order that meets it next.
use match_engine.Prelude.{
  ℕ, suc, length, ◌+◌, ◌≤◌, ◌≡◌, refl, ap, subst, ◌∙◌, Bool, true, false, List, [], ◌∷◌, ◌++◌,
  arith,
}
use mathlib.Core.List.{append-nil}
use match_engine.Double.{Double, IsRanked, IsExact}
use match_engine.Order.{Order, TradeRecord}
use match_engine.Engine.Trade.{
  Env, Message, trade, create_trade_record, trade_quantity_of, fill, process_trade,
}
use match_engine.Engine.Match.{Level, Book, wants_more, match_level, match_levels, match_buy_orders}
use match_engine.Engine.Process.{Engine, is_buy, settle, process_order}
use match_engine.Engine.Settle.{process_order-buy}
use match_engine.Engine.Exact.{
  remaining, wants_more-remaining, trade_quantity_of_units, process_trade-IsLive,
}
use match_engine.Engine.Invariant.{IsValid, IsAdmissible}
use match_engine.Engine.Sweep.{AllOpenBook}
use match_engine.Engine.Unsent.{try_settle_thrown, abandoned-sides}
use match_engine.Engine.Failing.{
  Faults, Attempt, try_level, try_levels, try_buy_orders, abandoned, try_orders, try_order,
}

module _ {D : Type 0} ⦃d : Double D⦄ where
  -- The first trade of a buy order, where its send throws.
  try_buy_orders_first :
      (fails : ℕ → Bool) (env : Env) (n : ℕ) (order : Order D) (price : D) (id : ℕ)
      (resting : Order D) (level : Level D) (asks : Book D)
      → wants_more order ≡ true
      → d.lt order.price price ≡ false
      → fails n ≡ true
      → let t = process_trade env n order resting in
        try_buy_orders fails env n order ((price, (id, resting) ∷ level) ∷ asks) ≡ record {
          matched = record {
            order = t.order;
            left = (price, (id, t.opposite) ∷ level) ∷ asks;
            sent = [];
          };
          thrown = true;
        }
  unfolding try_buy_orders try_levels try_level
  try_buy_orders_first fails env n order price id resting level asks w b f =
      rw (try_buy_orders, try_levels, try_level, w, b, f) refl

  -- And where it does not.
  match_buy_orders_first :
      (env : Env) (n : ℕ) (order : Order D) (price : D) (id : ℕ) (resting : Order D)
      (level : Level D) (asks : Book D)
      → wants_more order ≡ true
      → d.lt order.price price ≡ false
      → (later : List (Message D)) × ((match_buy_orders env n order
            ((price, (id, resting) ∷ level) ∷ asks)).sent
          ≡ (process_trade env n order resting).message ∷ later)
  unfolding match_buy_orders match_levels match_level
  match_buy_orders_first env n order price id resting level asks w b =
      let t = process_trade env n order resting in
      let r = match_level env (suc n) t.order level in
      let k = suc (length r.sent) in
      let s = match_levels env d.lt (n + k) r.order asks in
      (r.sent ++ s.sent, rw (match_buy_orders, match_levels, match_level, w, b) refl)

  -- What a round leaves that ends with the send of its first trade.
  try_order_first :
      (faults : Faults) (env : Env) (now : ℕ) (order : Order D) (e : Engine D) (price : D) (id : ℕ)
      (resting : Order D) (level : Level D) (asks : Book D)
      → is_buy order.order_side ≡ true
      → wants_more order ≡ true
      → d.lt order.price price ≡ false
      → faults.trade_fails e.trades ≡ true
      → e.sell_orders ≡ (price, (id, resting) ∷ level) ∷ asks
      → let t = process_trade env e.trades order resting in
        let e' = try_order faults env now order e in
        (e'.sell_orders ≡ (price, (id, t.opposite) ∷ level) ∷ asks)
        × (e'.buy_orders ≡ e.buy_orders)
        × (e'.results ≡ e.results)
  unfolding try_order try_orders
  try_order_first faults env now order e price id resting level asks buys w b f best =
      let a = try_buy_orders faults.trade_fails env e.trades order e.sell_orders in
      let first =
        try_buy_orders_first faults.trade_fails env e.trades order price id resting level asks w b
          f in
      let loop : a ≡ _ = ap (try_buy_orders faults.trade_fails env e.trades order) best ∙ first in
      let gone : try_order faults env now order e ≡ abandoned true a e.buy_orders e =
        rw (try_order, buys, try_orders)
          (try_settle_thrown faults now true a e.buy_orders e (ap (λ r. r.thrown) loop)) in
      let (left, own, results) = abandoned-sides true a e.buy_orders e in
      (
        ap (λ (u : Engine D). u.sell_orders) gone
            ∙ left
            ∙ ap (λ (r : Attempt D (Book D)). r.matched.left) loop,
        ap (λ (u : Engine D). u.buy_orders) gone ∙ own,
        ap (λ (u : Engine D). u.results) gone
            ∙ results
            ∙ ap (λ (r : Attempt D (Book D)). e.results ++ r.matched.sent) loop
            ∙ append-nil e.results,
      )

  -- A trade of a buy order with a resting order.
  abbrev pub IsTrade : (order resting : Order D) → (q : D) → Message D → Type 0
  IsTrade order resting q m =
      (buyer : Order D) × (seller : Order D) × (r : TradeRecord D) × (m ≡ trade buyer seller r)
      × (r.trade_quantity ≡ q)
      × (r.buyer_order_id ≡ order.order_id)
      × (r.seller_order_id ≡ resting.order_id)

  process_trade-IsTrade :
      (env : Env) (n : ℕ) (order resting : Order D)
      → IsTrade order resting
          (trade_quantity_of order resting)
          (process_trade env n order resting).message
  unfolding process_trade create_trade_record fill
  process_trade-IsTrade env n order resting = (_, _, _, refl, refl, refl, refl)

  -- The first message of a round of a buy order that meets the best ask.
  process_order_first :
      (env : Env) (now : ℕ) (order : Order D) (e : Engine D) (price : D) (id : ℕ)
      (resting : Order D) (level : Level D) (asks : Book D)
      → is_buy order.order_side ≡ true
      → wants_more order ≡ true
      → d.lt order.price price ≡ false
      → e.sell_orders ≡ (price, (id, resting) ∷ level) ∷ asks
      → (messages : List (Message D)) × ((process_order env now order e).results
          ≡ e.results ++ (process_trade env e.trades order resting).message ∷ messages)
  process_order_first env now order e price id resting level asks buys w b best =
      let (_, _, _, results) = process_order-buy env now order e buys in
      let m = match_buy_orders env e.trades order e.sell_orders in
      let sent = (settle m.order e.buy_orders).sent in
      let (later, first) =
        match_buy_orders_first env e.trades order price id resting level asks w b in
      let loop =
        ap (λ (side : Book D). (match_buy_orders env e.trades order side).sent) best ∙ first in
      (later ++ sent, results ∙ ap (λ l. e.results ++ (l ++ sent)) loop)

module _ {D : Type 0} ⦃d : Double D⦄ (k : IsRanked D) (x : IsExact D) where
  wanted : (o : Order D) → IsAdmissible k x o → wants_more o ≡ true
  wanted o a = ground (arith, wants_more-remaining x o a.live, a.wants)

  -- A valid engine and two admissible buy orders, all with exact quantities. If the first asks for at least
  -- what the best ask has left, reaches its price, and the send of its first trade throws, the ask stays in
  -- its place with nothing left, and no message was sent. If the second is next and reaches the price of
  -- that ask, it sends a trade with it over zero units first.
  pub process_order-try_order :
      (faults : Faults) (env : Env) (now now' : ℕ) (order later : Order D) (e : Engine D)
      (price : D) (id : ℕ) (resting : Order D) (level : Level D) (asks : Book D)
      → IsAdmissible k x order
      → IsAdmissible k x later
      → IsValid k x e
      → is_buy order.order_side ≡ true
      → is_buy later.order_side ≡ true
      → d.lt order.price price ≡ false
      → d.lt later.price price ≡ false
      → faults.trade_fails e.trades ≡ true
      → e.sell_orders ≡ (price, (id, resting) ∷ level) ∷ asks
      → remaining x resting ≤ remaining x order
      → let lost = try_order faults env now order e in
        (emptied : Order D) × (lost.sell_orders ≡ (price, (id, emptied) ∷ level) ∷ asks)
        × (remaining x emptied ≡ 0)
        × (lost.results ≡ e.results)
        × (m : Message D) × (messages : List (Message D)) × (q : D) × ((process_order env now' later
              lost).results
            ≡ lost.results ++ m ∷ messages)
        × IsTrade later emptied q m
        × (x.units q ≡ 0)
  process_order-try_order faults env now now' order later e price id resting level asks a a' v buys
        buys' b b' f best enough =
      let lost = try_order faults env now order e in
      let (((p, _), _), _) = subst (AllOpenBook x) best v.sells.orders_open in
      let t = process_trade env e.trades order resting in
      let (_, live, _, left) = process_trade-IsLive x env e.trades order resting a.live p.live in
      let nothing : remaining x t.opposite ≡ 0 = omega (arith, left, enough) in
      let (sells, own, results) =
        try_order_first faults env now order e price id resting level asks buys (wanted order a) b f
          best in
      let (messages, sent) =
        process_order_first env now' later lost price id t.opposite level asks buys'
          (wanted later a') b' sells in
      let (_, units) = trade_quantity_of_units x later t.opposite a'.live live in
      (
        t.opposite,
        sells,
        nothing,
        results,
        (process_trade env lost.trades later t.opposite).message,
        messages,
        trade_quantity_of later t.opposite,
        sent,
        process_trade-IsTrade env lost.trades later t.opposite,
        omega (arith, units, nothing),
      )
