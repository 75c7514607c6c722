-- ===== src/Engine/Book.antt =====
-- src/MatchingEngine.cpp: `addOrderToBook`, and the order book as text.
use Prim.Native.String.{len}
use match_engine.Prelude.{repeated, ◌<>◌, ℕ, ◌-◌, String, Option, none, some, [], ◌∷◌, ltb}
use match_engine.Double.{Double}
use match_engine.Order.{Order}
use match_engine.OrderedMap.{update}
use match_engine.Engine.Match.{Level, Book}

-- `orderBook[price]` before the assignment: the level that is there, or a new one.
unfoldable pub level_of : {D : Type 0} → Option (Level D) → Level D
level_of none = []
level_of (some level) = level

module _ {D : Type 0} ⦃d : Double D⦄ where
  -- `level[orderId] = order`.
  unfoldable pub put_order : Order D → Level D → Level D
  unfolding update
  put_order order level = update ltb order.order_id (λ old. order) level

  unfoldable pub add_order_to_book : Order D → Book D → Book D
  unfolding update put_order level_of
  add_order_to_book order book =
      update d.lt order.price (λ old. put_order order (level_of old)) book

-- `std::left << std::setw(width)`.
unfoldable pub padded : ℕ → String → String
unfolding repeated
padded width s = s <> repeated (width - len s) " "

unfoldable pub table_head : String
unfolding padded
table_head =
    padded 12 "Order Side"
    <> " | "
    <> padded 8 "Price"
    <> " | "
    <> padded 8 "Quantity"
    <> "\n"
    <> repeated 36 "-"
    <> "\n"

module _ {D : Type 0} ⦃d : Double D⦄ where
  -- The body of the two inner loops of `formatOrderBook`.
  unfoldable pub table_row : String → D → Order D → String
  unfolding padded
  table_row side price order =
      padded 12 side
      <> " | "
      <> padded 8 (d.to_fixed 8 price)
      <> " | "
      <> padded 8 (d.to_fixed 8 order.quantity)
      <> "\n"

  unfoldable pub level_rows : String → D → Level D → String
  unfolding table_row
  level_rows side price [] = ""
  level_rows side price ((id, order) ∷ level) =
      table_row side price order <> level_rows side price level

  unfoldable pub side_rows : String → Book D → String
  unfolding level_rows
  side_rows side [] = ""
  side_rows side ((price, level) ∷ book) = level_rows side price level <> side_rows side book

  unfoldable pub format_order_book : (buy_orders sell_orders : Book D) → String
  unfolding table_head side_rows
  format_order_book buy_orders sell_orders =
      table_head <> side_rows "BUY" buy_orders <> side_rows "SELL" sell_orders
