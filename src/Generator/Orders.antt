-- ===== src/Generator/Orders.antt =====
-- src/OrderGenerator.cpp. The random draws and the readings of the clock are a parameter, indexed by
-- the number of orders made before; so is `std::stoul`, with the text of its exception. The state is
-- the counter of order ids (32 bits), the database connection, and the queue of texts that were sent.
use text.Mathlib.Text.{◌==◌}
use match_engine.Prelude.{
  ℕ, zero, suc, Bool, ◌+◌, ◌%◌, ◌^◌, String, Option, none, some, List, [], ◌∷◌, ◌++◌, if◌then◌else◌,
}
use match_engine.Prelude.Int.{ℤ}
use match_engine.Prelude.Result.{Result, ok, err, std_error, ◌>>=◌}
use match_engine.Double.{Double}
use match_engine.Order.{Order, OrderSide, OrderType, buy, sell, limit, market, initial}
use match_engine.Json.{Json, object_of}
use match_engine.Serialization.Enums.{
  string_to_order_side, string_to_order_type, string_to_order_status,
}
use match_engine.Serialization.Times.{Calendar, string_to_time_point}
use match_engine.Serialization.Orders.{serialize_order, serialize_message}
use match_engine.Database.Connection.{
  Mysql, Row, DbConnection, execute_query, execute_query_with_result,
}
use match_engine.Persistence.Statements.{insert_statement}

pub record Draws (D : Type 0) : Type 0 where
  pub price : ℕ → D
  pub quantity : ℕ → D
  pub fee_rate : ℕ → D
  -- `orderSideDistribution`, from 0 to 1.
  pub order_side : ℕ → ℕ
  -- `orderTypeDistribution`, from 0 to 1. No round draws from it.
  pub order_type : ℕ → ℕ
  pub system_clock : ℕ → ℤ

pub record Stoul : Type 0 where
  pub stoul : String → Option ℕ
  pub stoul_error : String → String

pub record Generator (S : Type 0) : Type 0 where
  pub order_id_counter : ℕ
  pub db : DbConnection S
  pub sent : List String

-- The constructor: the counter is a static member, with 10000 as its first value.
unfoldable pub new_generator : {S : Type 0} → DbConnection S → Generator S
new_generator db = record { order_id_counter = 10000; db = db; sent = [] }

-- The cast of `getRandomOrderSide`.
unfoldable pub order_side_at : ℕ → OrderSide
order_side_at zero = buy
order_side_at (suc zero) = sell
order_side_at (suc (suc n)) = OrderSide.unknown

unfoldable pub get_random_order_side : {D : Type 0} → Draws D → ℕ → OrderSide
unfolding order_side_at
get_random_order_side draws index = order_side_at (draws.order_side index)

unfoldable pub order_type_at : ℕ → OrderType
order_type_at zero = limit
order_type_at (suc zero) = market
order_type_at (suc (suc n)) = OrderType.unknown

-- The sources have its call in a comment only.
unfoldable pub get_random_order_type : {D : Type 0} → Draws D → ℕ → OrderType
unfolding order_type_at
get_random_order_type draws index = order_type_at (draws.order_type index)

abbrev pub u32 : ℕ → ℕ
u32 n = n % 2 ^ 32

-- `row.at(key)`. The last entry of a name is the one that a map keeps.
unfoldable pub column : String → Row → Result String
column key [] = err (std_error "map::at")
column key ((name, value) ∷ row) = elim (column key row) [
  | ok later ↦ ok later
  | err e ↦ if name == key then ok value else err e
]

module _ ⦃p : Stoul⦄ where
  unfoldable pub read_ulong : String → Result ℕ
  read_ulong text = elim (p.stoul text) [
    | none ↦ err (std_error (p.stoul_error text))
    | some n ↦ ok n
  ]

module _ {D : Type 0} ⦃d : Double D⦄ where
  unfoldable pub read_stod : String → Result D
  read_stod text = elim (d.stod text) [ none ↦ err (std_error (d.stod_error text)) | some a ↦ ok a ]

  -- The class has its own `roundToPrecision`.
  unfoldable pub round_to_precision : D → ℕ → D
  round_to_precision value precision =
      let factor = d.ten_to precision in d.div (d.round (d.mul value factor)) factor

  -- `createRandomOrder`: the counter after it, and the order.
  unfoldable pub create_random_order : Draws D → (index counter : ℕ) → ℕ × Order D
  unfolding round_to_precision get_random_order_side
  create_random_order draws index counter =
      let id = u32 (counter + 1) in
      (
        id,
        record {
          order_id = id;
          user_id = id;
          price = round_to_precision (draws.price index) 8;
          quantity = round_to_precision (draws.quantity index) 6;
          fee_rate = round_to_precision (draws.fee_rate index) 6;
          order_side = get_random_order_side draws index;
          order_type = limit;
          status = initial;
          create_time = draws.system_clock index;
          update_time = draws.system_clock index;
          filled_quantity = d.nought;
        },
      )

module _ {D : Type 0} ⦃d : Double D⦄ ⦃c : Calendar⦄ ⦃p : Stoul⦄ where
  -- The body of the loop in `loadOrdersFromDatabase`, up to `sendOrder`.
  unfoldable pub read_row_order : Row → Result (Order D)
  unfolding read_stod read_ulong column
  read_row_order row = do
    order_id ← column "order_id" row >>= read_ulong
    user_id ← column "user_id" row >>= read_ulong
    price ← column "price" row >>= read_stod
    quantity ← column "quantity" row >>= read_stod
    fee_rate ← column "fee_rate" row >>= read_stod
    order_side ← column "order_side" row
    order_type ← column "order_type" row
    status ← column "status" row
    filled_quantity ← column "filled_quantity" row >>= read_stod
    create_time ← column "create_time" row
    update_time ← column "update_time" row
    ok (record {
      order_id = u32 order_id;
      user_id = user_id;
      price = price;
      quantity = quantity;
      fee_rate = fee_rate;
      order_side = string_to_order_side order_side;
      order_type = string_to_order_type order_type;
      status = string_to_order_status status;
      create_time = string_to_time_point create_time;
      update_time = string_to_time_point update_time;
      filled_quantity = filled_quantity;
    })

module _ {D : Type 0} (J : Type 0) ⦃d : Double D⦄ ⦃j : Json J⦄ ⦃c : Calendar⦄ where
  -- The text that goes to the order socket.
  unfoldable pub encode_order : Order D → String
  encode_order order = serialize_message (
      object_of j.null
        (("type", j.of_string "ORDER") ∷ ("order", j.of_string (serialize_order J order)) ∷ []))

module _ ⦃p : Stoul⦄ where
  -- The highest id, or 10000 where there is none that can be read.
  unfoldable pub max_id_of : List Row → ℕ
  unfolding column read_ulong
  max_id_of [] = 10000
  max_id_of (row ∷ rows) = elim (column "max_order_id" row >>= read_ulong) [
    | ok n ↦ u32 n
    | err e ↦ 10000
  ]

abbrev pub load_statement : String
load_statement =
    "SELECT order_id, user_id, price, quantity, fee_rate, order_side, order_type, status, filled_quantity, create_time, update_time FROM orders WHERE status IN ('INITIAL', 'MATCHING', 'PARTIALLY_FILLED') ORDER BY create_time ASC"

abbrev pub max_id_statement : String
max_id_statement = "SELECT MAX(order_id) AS max_order_id FROM orders"

module _ (D J : Type 0) {S : Type 0} ⦃d : Double D⦄ ⦃j : Json J⦄ ⦃c : Calendar⦄ ⦃p : Stoul⦄
    ⦃m : Mysql S⦄ where
  unfoldable pub push_order : Order D → Generator S → Generator S
  unfolding encode_order
  push_order order g = record g { sent = g.sent ++ encode_order J order ∷ [] }

  -- The result says whether the insertion succeeded; a failure is logged.
  unfoldable pub write_order_to_database : Order D → DbConnection S → Result Bool × DbConnection S
  write_order_to_database order db = execute_query (insert_statement order) db

  after_insert :
      Order D → Generator S → Result Bool × DbConnection S → Result (Unit {0}) × Generator S
  unfolding push_order
  after_insert order g (ok inserted, db) = (ok tt, push_order order (record g { db = db }))
  after_insert order g (err e, db) = (err e, record g { db = db })

  -- `sendOrder(order, false)`: the order is sent even if the insertion fails.
  unfoldable pub send_new_order : Order D → Generator S → Result (Unit {0}) × Generator S
  unfolding after_insert write_order_to_database
  send_new_order order g = after_insert order g (write_order_to_database order g.db)

  -- The loop of `loadOrdersFromDatabase`. An exception ends it and is caught; the orders that were
  -- sent before stay sent.
  unfoldable pub resend_rows : List Row → Generator S → Generator S
  unfolding push_order
  resend_rows [] g = g
  resend_rows (row ∷ rows) g = elim (read_row_order {D = D} row) [
    | err e ↦ g
    | ok order ↦ resend_rows rows (push_order order g)
  ]

  after_load : Generator S → Result (List Row) × DbConnection S → Generator S
  unfolding resend_rows
  after_load g (ok rows, db) = resend_rows rows (record g { db = db })
  after_load g (err e, db) = record g { db = db }

  unfoldable pub load_orders_from_database : Generator S → Generator S
  unfolding after_load
  load_orders_from_database g = after_load g (execute_query_with_result load_statement g.db)

  after_max : Generator S → Result (List Row) × DbConnection S → Result ℕ × Generator S
  unfolding max_id_of
  after_max g (ok rows, db) = (ok (max_id_of rows), record g { db = db })
  after_max g (err e, db) = (err e, record g { db = db })

  unfoldable pub get_max_order_id : Generator S → Result ℕ × Generator S
  unfolding after_max
  get_max_order_id g = after_max g (execute_query_with_result max_id_statement g.db)

  -- The loop of `generateOrders` with `left` rounds to go, as far as an exception lets it. The orders
  -- it made are returned with the state.
  unfoldable pub generate_loop :
      Draws D → (left index : ℕ) → Generator S → Result (Unit {0}) × Generator S
  unfolding send_new_order create_random_order
  generate_loop draws zero index g = (ok tt, g)
  generate_loop draws (suc left) index g =
      let (counter, order) = create_random_order draws index g.order_id_counter in
      let (sent, g') = send_new_order order (record g { order_id_counter = counter }) in
      elim sent [ err e ↦ (err e, g') | ok u ↦ generate_loop draws left (suc index) g' ]

  after_get_max : Draws D → ℕ → Result ℕ × Generator S → Result (Unit {0}) × Generator S
  unfolding generate_loop
  after_get_max draws number (err e, g) = (err e, g)
  after_get_max draws number (ok n, g) =
      generate_loop draws number 0 (record g { order_id_counter = n })

  unfoldable pub generate_orders : Draws D → ℕ → Generator S → Result (Unit {0}) × Generator S
  unfolding load_orders_from_database get_max_order_id after_get_max
  generate_orders draws number g =
      after_get_max draws number (get_max_order_id (load_orders_from_database g))
