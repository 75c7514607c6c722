-- ===== src/Persistence/Program.antt =====
-- src/PersistenceProgram.cpp: what the program does with one message of the result queue, and
-- src/MatchingEngine.cpp: how the engine writes such a message. The state is the database connection
-- that the program holds; a mutex keeps its queries apart, so a message is handled as one sequence.
use text.Mathlib.Text.{◌==◌}
use match_engine.Prelude.{Bool, not, ◌||◌, String, none, some, List, [], ◌∷◌, if◌then◌else◌}
use match_engine.Prelude.Result.{Result, ok, err, Error, std_error}
use match_engine.Double.{Double}
use match_engine.Order.{Order, TradeRecord}
use match_engine.Json.{Json, object_of}
use match_engine.Serialization.Times.{Calendar}
use match_engine.Serialization.Orders.{
  serialize_order, serialize_trade_record, serialize_message, deserialize_message,
  deserialize_order, deserialize_trade_record, string_at,
}
use match_engine.Engine.Trade.{Message, unmatched_order, trade}
use match_engine.Database.Connection.{Mysql, DbConnection, execute_query}
use match_engine.Persistence.Statements.{update_statement, trade_statement}

module _ {D : Type 0} (J : Type 0) ⦃d : Double D⦄ ⦃j : Json J⦄ ⦃c : Calendar⦄ where
  -- The JSON objects of `generateUnmatchedOrderMessage` and `generateTradeMessage`.
  unfoldable pub message_fields : Message D → List (String × J)
  message_fields (unmatched_order o) =
      ("type", j.of_string "UNMATCHED_ORDER") ∷ ("order", j.of_string (serialize_order J o)) ∷ []
  message_fields (trade a b t) =
      ("type", j.of_string "TRADE")
      ∷ ("buyOrder", j.of_string (serialize_order J a))
      ∷ ("sellOrder", j.of_string (serialize_order J b))
      ∷ ("tradeRecord", j.of_string (serialize_trade_record J t))
      ∷ []

  -- The text that goes to the result socket.
  unfoldable pub encode_message : Message D → String
  unfolding message_fields
  encode_message m = serialize_message (object_of j.null (message_fields m))

-- State passing with exceptions: the state is kept where one is thrown.
abbrev pub M : Type 0 → Type 0 → Type 0
M S A = DbConnection S → Result A × DbConnection S

abbrev pub continue :
    {S A B : Type 0} → (A → M S B) → Result A × DbConnection S → Result B × DbConnection S
continue f (ok a, s) = f a s
continue f (err e, s) = (err e, s)

infixl 5 ◌>>=◌ ◌>>◌
abbrev pub ◌>>=◌ : {S A B : Type 0} → M S A → (A → M S B) → M S B
◌>>=◌ m f s = continue f (m s)

abbrev pub ◌>>◌ : {S A B : Type 0} → M S A → M S B → M S B
m >> k = m >>= λ _. k

abbrev pub lift : {S A : Type 0} → Result A → M S A
lift r s = (r, s)

-- What a round of the loop in `run` comes to. After an exception the result socket is closed and
-- connected again.
pub data Round : Type 0 where
  skipped handled reconnected : Round

-- What `recv` gives: no message, a message, or an exception.
pub data Received : Type 0 where
  nothing : Received
  message : String → Received
  failed : Error → Received

abbrev pub round_of : {S : Type 0} → Result (Unit {0}) × DbConnection S → Round × DbConnection S
round_of (ok u, s) = (handled, s)
round_of (err e, s) = (reconnected, s)

abbrev pub throw : {S A : Type 0} → String → M S A
throw what s = (err (std_error what), s)

abbrev pub done : {S : Type 0} → M S (Unit {0})
done s = (ok tt, s)

module _ {D S : Type 0} ⦃d : Double D⦄ ⦃m : Mysql S⦄ where
  -- `processOrder` and `processTradeRecord`: the result of the query is not looked at.
  unfoldable pub persist_order : Order D → M S Bool
  persist_order order = execute_query (update_statement order)

  unfoldable pub persist_trade_record : TradeRecord D → M S Bool
  persist_trade_record t = execute_query (trade_statement t)

  -- The transaction of `processTradeMessage`.
  unfoldable pub persist_trade : Order D → Order D → TradeRecord D → M S (Unit {0})
  unfolding persist_order persist_trade_record
  persist_trade buy_order sell_order t = do
    execute_query "START TRANSACTION"
    persist_order buy_order
    persist_order sell_order
    persist_trade_record t
    execute_query "COMMIT"
    done

module _ (D J : Type 0) {S : Type 0} ⦃d : Double D⦄ ⦃j : Json J⦄ ⦃c : Calendar⦄ ⦃m : Mysql S⦄ where
  persist_order_data : J → M S (Unit {0})
  unfolding persist_order
  persist_order_data root =
      if not (j.is_object root)
      then throw "Invalid order data"
      else do order ← lift (deserialize_order {D = D} root); persist_order order; done

  unfoldable pub process_unmatched_order_message : J → M S (Unit {0})
  unfolding persist_order_data
  process_unmatched_order_message root = do
    text ← lift (string_at "order" root)
    order_data ← lift (deserialize_message text)
    persist_order_data order_data

  persist_trade_data : J → J → J → M S (Unit {0})
  unfolding persist_trade
  persist_trade_data buy_data sell_data record_data =
      if not (j.is_object buy_data) || not (j.is_object sell_data) || not (j.is_object record_data)
      then throw "Invalid trade message data"
      else do
        buy_order ← lift (deserialize_order {D = D} buy_data)
        sell_order ← lift (deserialize_order {D = D} sell_data)
        t ← lift (deserialize_trade_record {D = D} record_data)
        persist_trade buy_order sell_order t

  unfoldable pub process_trade_message : J → M S (Unit {0})
  unfolding persist_trade_data
  process_trade_message root = do
    buy_text ← lift (string_at "buyOrder" root)
    buy_data ← lift (deserialize_message buy_text)
    sell_text ← lift (string_at "sellOrder" root)
    sell_data ← lift (deserialize_message sell_text)
    record_text ← lift (string_at "tradeRecord" root)
    record_data ← lift (deserialize_message record_text)
    persist_trade_data buy_data sell_data record_data

  process_kind : String → J → M S (Unit {0})
  unfolding process_trade_message process_unmatched_order_message
  process_kind kind root =
      if kind == "TRADE"
      then process_trade_message root
      else if kind == "UNMATCHED_ORDER"
      then process_unmatched_order_message root
      else done

  unfoldable pub process_message : J → M S (Unit {0})
  unfolding process_kind
  process_message root = do kind ← lift (string_at "type" root); process_kind kind root

  -- One round of the loop.
  unfoldable pub run_round : Received → DbConnection S → Round × DbConnection S
  unfolding process_message
  run_round nothing s = (skipped, s)
  run_round (failed e) s = (reconnected, s)
  run_round (message text) s = if text == "" then (skipped, s) else elim (j.parse text) [
    | none ↦ (skipped, s)
    | some root ↦ round_of (process_message root s)
  ]
