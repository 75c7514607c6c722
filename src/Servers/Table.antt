-- ===== src/Servers/Table.antt =====
-- The order book as text, written out, against `formatOrderBook` of src/MatchingEngine.cpp.
use text.Mathlib.TextLemmas.{append_assoc, nil-append}
use match_engine.Prelude.{
  ◌<>◌, ℕ, zero, suc, ◌-◌, ◌≡◌, refl, ap, sym, ◌∙◌, String, [], ◌∷◌, ◌++◌, repeated,
}
use match_engine.Double.{Double}
use match_engine.Order.{Order}
use match_engine.Engine.Match.{Level, Book}
use match_engine.Engine.Process.{Engine}
use match_engine.Servers.Health.{page}
use match_engine.Engine.Priority.{Queue, tagged, flatten}
use match_engine.Engine.Book.{
  padded, table_head, table_row, level_rows, side_rows, format_order_book,
}
use Prim.Native.String.{len}

abbrev pub spaces : ℕ → String
spaces zero = ""
spaces (suc n) = " " <> spaces n

-- A text that is followed by spaces up to eight characters, if it has fewer.
abbrev pub cell : String → String
cell text = text <> spaces (8 - len text)

module _ {D : Type 0} ⦃d : Double D⦄ where
  -- The side, the price and the quantity, both with eight decimal digits.
  abbrev pub row : (side : String) → D → Order D → String
  row side price order =
      side
      <> " | "
      <> cell (d.to_fixed 8 price)
      <> " | "
      <> cell (d.to_fixed 8 order.quantity)
      <> "\n"

  -- One row for each order.
  abbrev pub rows : (side : String) → Queue D → String
  rows side [] = ""
  rows side ((price, id, order) ∷ queue) = row side price order <> rows side queue

  -- A head of two lines, the rows of all bids, and those of all asks, from the lowest price to the
  -- highest.
  abbrev pub table : (bids asks : Book D) → String
  table bids asks =
      "Order Side   | Price    | Quantity\n------------------------------------\n"
      <> rows "BUY         " (flatten bids)
      <> rows "SELL        " (flatten asks)

repeated-spaces : (n : ℕ) → repeated n " " ≡ spaces n
unfolding repeated
repeated-spaces zero = refl
repeated-spaces (suc n) = ap (λ s. " " <> s) (repeated-spaces n)

padded-cell : (text : String) → padded 8 text ≡ cell text
unfolding padded
padded-cell text = ap (λ s. text <> s) (repeated-spaces (8 - len text))

head_lem : table_head ≡ "Order Side   | Price    | Quantity\n------------------------------------\n"
unfolding table_head padded repeated
head_lem = refl

module _ {D : Type 0} ⦃d : Double D⦄ where
  rows-append : (side : String) (a b : Queue D) → rows side a <> rows side b ≡ rows side (a ++ b)
  rows-append side [] b = nil-append (rows side b)
  rows-append side ((price, id, order) ∷ a) b =
      append_assoc (row side price order) (rows side a) (rows side b)
      ∙ ap (λ s. row side price order <> s) (rows-append side a b)

  level_rows-rows :
      (side : String) (price : D) (level : Level D)
      → level_rows side price level ≡ rows (padded 12 side) (tagged price level)
  unfolding level_rows table_row
  level_rows-rows side price [] = refl
  level_rows-rows side price ((id, order) ∷ level) =
      rw
        (
          padded-cell (d.to_fixed 8 price),
          padded-cell (d.to_fixed 8 order.quantity),
          level_rows-rows side price level,
        )
        refl

  side_rows-rows :
      (side : String) (book : Book D) → side_rows side book ≡ rows (padded 12 side) (flatten book)
  unfolding side_rows
  side_rows-rows side [] = refl
  side_rows-rows side ((price, level) ∷ book) =
      rw (level_rows-rows side price level, side_rows-rows side book)
        (rows-append (padded 12 side) (tagged price level) (flatten book))

  -- `formatOrderBook` gives the table of the two sides.
  pub format_order_book-table : (bids asks : Book D) → format_order_book bids asks ≡ table bids asks
  unfolding format_order_book padded repeated
  format_order_book-table bids asks =
      rw (head_lem, side_rows-rows "BUY" bids, side_rows-rows "SELL" asks) refl

-- The page is the text in its frame.
pub page-frame :
    (text : String)
    → page (record { latest_order_book = text })
      ≡ "<html><head><title>Health Check</title></head><body><pre>" <> text
        <> "</pre></body></html>"
unfolding page
page-frame text = sym (
    append_assoc "<html><head><title>Health Check</title></head><body>" "<pre>"
      (text <> "</pre></body></html>"))

module _ {D : Type 0} ⦃d : Double D⦄ where
  -- The page with the two sides of the engine as a table.
  abbrev pub table_page : Engine D → String
  table_page e =
      "<html><head><title>Health Check</title></head><body><pre>"
      <> table e.buy_orders e.sell_orders
      <> "</pre></body></html>"

  pub page-table_page :
      (e : Engine D)
      → page (record { latest_order_book = format_order_book e.buy_orders e.sell_orders })
        ≡ table_page e
  page-table_page e =
      page-frame (format_order_book e.buy_orders e.sell_orders)
      ∙ ap
          (λ text.
            "<html><head><title>Health Check</title></head><body><pre>" <> text
            <> "</pre></body></html>")
          (format_order_book-table e.buy_orders e.sell_orders)
