-- ===== src/Persistence/Statements.antt =====
-- src/PersistenceProgram.cpp and src/OrderGenerator.cpp: the texts of the SQL statements.
use Prim.Native.Char.{Char}
use match_engine.Prelude.{
  ◌<>◌, ◌<◌, arith, Bool-cases, inl, inr, ℕ, zero, suc, ◌/◌, ◌%◌, ◌≡◌, refl, String, if◌then◌else◌,
  ◌==◌,
}
use match_engine.Double.{Double, to_string}
use match_engine.Order.{Order, TradeRecord}
use match_engine.Serialization.Enums.{
  order_side_to_string, order_type_to_string, order_status_to_string,
}

pub digit : ℕ → Char
digit zero = "0"
digit (suc zero) = "1"
digit (suc (suc zero)) = "2"
digit (suc (suc (suc zero))) = "3"
digit (suc (suc (suc (suc zero)))) = "4"
digit (suc (suc (suc (suc (suc zero))))) = "5"
digit (suc (suc (suc (suc (suc (suc zero)))))) = "6"
digit (suc (suc (suc (suc (suc (suc (suc zero))))))) = "7"
digit (suc (suc (suc (suc (suc (suc (suc (suc zero)))))))) = "8"
digit (suc (suc (suc (suc (suc (suc (suc (suc (suc n))))))))) = "9"

-- `std::to_string` of an unsigned integer. A number has no more digits than its value plus one.
decimal_onto : (fuel : ℕ) → ℕ → String → String
unfolding digit
decimal_onto zero n rest = rest
decimal_onto (suc fuel) n rest =
    let text = String.◌∷◌ (digit (n % 10)) rest in
    let more = decimal_onto fuel (n / 10) text in if n / 10 == 0 then text else more

unfoldable pub decimal : ℕ → String
unfolding decimal_onto
decimal n = decimal_onto (suc n) n ""

-- The digits do not depend on the fuel, where there is more of it than the number.
decimal_onto-fuel :
    (fuel fuel' n : ℕ) (rest : String)
    → n < fuel
    → n < fuel'
    → decimal_onto fuel n rest ≡ decimal_onto fuel' n rest
unfolding decimal_onto
decimal_onto-fuel zero fuel' n rest h h' = absurd (omega (arith, h))
decimal_onto-fuel (suc fuel) zero n rest h h' = absurd (omega (arith, h'))
decimal_onto-fuel (suc fuel) (suc fuel') n rest h h' = elim (Bool-cases (n / 10 == 0)) [
  | inl e ↦ rw e refl
  | inr e ↦
      let some_left : 0 < n / 10 = ground arith in
      rw e (
        decimal_onto-fuel fuel fuel' (n / 10) (String.◌∷◌ (digit (n % 10)) rest) (omega arith)
          (omega arith))
]

decimal_10203 : decimal 10203 ≡ "10203"
unfolding decimal
decimal_10203 = refl

module _ {D : Type 0} ⦃d : Double D⦄ where
  -- The status that `processOrder` derives from the filled quantity.
  unfoldable pub status_of : Order D → String
  status_of order =
      if d.le order.quantity order.filled_quantity
      then "FULLY_FILLED"
      else if d.lt d.nought order.filled_quantity
      then "PARTIALLY_FILLED"
      else "MATCHING"

  unfoldable pub update_statement : Order D → String
  unfolding status_of
  update_statement order =
      "UPDATE orders SET status = '"
      <> status_of order
      <> "', filled_quantity = "
      <> to_string order.filled_quantity
      <> " WHERE order_id = "
      <> decimal order.order_id

  unfoldable pub trade_statement : TradeRecord D → String
  trade_statement t =
      "INSERT INTO trade_records (buyer_user_id, seller_user_id, buyer_order_id, seller_order_id, order_type, trade_price, trade_quantity, buyer_fee, seller_fee) VALUES ("
      <> decimal t.buyer_user_id
      <> ", "
      <> decimal t.seller_user_id
      <> ", "
      <> decimal t.buyer_order_id
      <> ", "
      <> decimal t.seller_order_id
      <> ", '"
      <> t.order_type
      <> "', "
      <> to_string t.trade_price
      <> ", "
      <> to_string t.trade_quantity
      <> ", "
      <> to_string t.buyer_fee
      <> ", "
      <> to_string t.seller_fee
      <> ")"

  -- `OrderGenerator::writeOrderToDatabase`.
  unfoldable pub insert_statement : Order D → String
  insert_statement o =
      "INSERT INTO orders (order_id, user_id, price, quantity, fee_rate, order_side, order_type, status, filled_quantity) VALUES ("
      <> decimal o.order_id
      <> ", "
      <> decimal o.user_id
      <> ", "
      <> to_string o.price
      <> ", "
      <> to_string o.quantity
      <> ", "
      <> to_string o.fee_rate
      <> ", '"
      <> order_side_to_string o.order_side
      <> "', '"
      <> order_type_to_string o.order_type
      <> "', '"
      <> order_status_to_string o.status
      <> "', "
      <> to_string o.filled_quantity
      <> ")"
