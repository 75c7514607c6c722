-- ===== src/Engine/Process.antt =====
-- src/MatchingEngine.cpp: the engine's state and the handling of one order. The queues to the result
-- socket and to the book socket are lists, in the order of sending; `now` is the reading of the steady
-- clock by `publishOrderBook`, in nanoseconds. Sends that throw are in Engine/Failing.antt.
use match_engine.Prelude.{
  ℕ, ◌+◌, ◌-◌, ◌/◌, Bool, true, false, String, List, [], ◌∷◌, ◌++◌, length, leb, if◌then◌else◌,
}
use match_engine.Double.{Double}
use match_engine.Order.{Order, OrderSide, buy, sell}
use match_engine.Engine.Trade.{Env, Message, unmatched_order}
use match_engine.Engine.Match.{Book, Matched, wants_more, match_buy_orders, match_sell_orders}
use match_engine.Engine.Book.{add_order_to_book, format_order_book}

pub record Engine (D : Type 0) : Type 0 where
  pub buy_orders : Book D
  pub sell_orders : Book D
  pub last_publish_time : ℕ
  pub trades : ℕ
  pub results : List (Message D)
  pub published : List String

-- The constructor: both sides empty, the clock at its epoch.
unfoldable pub new_engine : (D : Type 0) → Engine D
new_engine D = record {
  buy_orders = [];
  sell_orders = [];
  last_publish_time = 0;
  trades = 0;
  results = [];
  published = [];
}

abbrev pub second : ℕ
second = 1_000_000_000

unfoldable pub is_buy : OrderSide → Bool
is_buy buy = true
is_buy sell = false
is_buy OrderSide.unknown = false

pub record Settled (D : Type 0) : Type 0 where
  pub own : Book D
  pub sent : List (Message D)

module _ {D : Type 0} ⦃d : Double D⦄ where
  -- `matchOrders` after the loop: what happens to the order itself.
  unfoldable pub settle : Order D → Book D → Settled D
  unfolding wants_more add_order_to_book
  settle order own =
      if d.eq order.filled_quantity d.nought
      then record { own = add_order_to_book order own; sent = unmatched_order order ∷ [] }
      else if wants_more order
      then record { own = add_order_to_book order own; sent = [] }
      else record { own = own; sent = [] }

  -- At most once a second.
  unfoldable pub publish_order_book : ℕ → Engine D → Engine D
  unfolding format_order_book
  publish_order_book now e =
      if leb 1 ((now - e.last_publish_time) / second)
      then record e {
        last_publish_time = now;
        published = e.published ++ format_order_book e.buy_orders e.sell_orders ∷ [];
      }
      else e

  -- What the loop and `settle` leave, put back into the engine.
  unfoldable pub matched_engine : Bool → Matched D (Book D) → Settled D → Engine D → Engine D
  matched_engine buying m s e = record e {
    buy_orders = if buying then s.own else m.left;
    sell_orders = if buying then m.left else s.own;
    trades = e.trades + length m.sent;
    results = e.results ++ (m.sent ++ s.sent);
  }

  unfoldable pub match_orders : Env → ℕ → Order D → Bool → Engine D → Engine D
  unfolding match_buy_orders match_sell_orders settle matched_engine publish_order_book
  match_orders env now order true e =
      let m = match_buy_orders env e.trades order e.sell_orders in
      publish_order_book now (matched_engine true m (settle m.order e.buy_orders) e)
  match_orders env now order false e =
      let m = match_sell_orders env e.trades order e.buy_orders in
      publish_order_book now (matched_engine false m (settle m.order e.sell_orders) e)

  unfoldable pub process_order : Env → ℕ → Order D → Engine D → Engine D
  unfolding is_buy match_orders
  process_order env now order e = match_orders env now order (is_buy order.order_side) e
