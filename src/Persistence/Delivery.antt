-- ===== src/Persistence/Delivery.antt =====
-- From the engine to the database: what the program of src/PersistenceProgram.cpp makes of the messages
-- of src/MatchingEngine.cpp.
use text.Mathlib.Text.{◌==◌}
use text.Mathlib.TextEquality.{eq_iff}
use match_engine.Prelude.{
  ℕ, ◌≡◌, refl, sym, ap, ◌∙◌, false, inl, inr, String, Option, none, some, List, [], ◌∷◌,
  Bool-cases,
}
use match_engine.Prelude.Result.{ok}
use match_engine.Double.{Double, to_string}
use match_engine.Order.{Order, TradeRecord}
use match_engine.Json.{Json, IsJson, object_of, last_of}
use match_engine.Serialization.Times.{Calendar, IsCalendar}
use match_engine.Serialization.Orders.{
  serialize_order, serialize_trade_record, serialize_message, order_json, trade_json, string_at,
}
use match_engine.Serialization.RoundTrip.{
  FitsOrder, FitsTrade, reread_order, reread_trade, string_at_lem, got, order_json-is_object,
  trade_json-is_object, deserialize_order-order_json, deserialize_trade_record-trade_json,
  deserialize_message-write,
}
use match_engine.Engine.Trade.{unmatched_order, trade}
use match_engine.Database.Connection.{Mysql, DbConnection, execute_query}
use match_engine.Database.Reconnect.{holding, execute_query-holding}
use match_engine.Persistence.Statements.{update_statement, trade_statement}
use match_engine.Persistence.Program.{
  message_fields, encode_message, M, ◌>>◌, done, handled, message, persist_trade, process_message,
  run_round,
}

module _ {S : Type 0} where
  abbrev pub IsHolding : DbConnection S → Type 0
  IsHolding c = (handle : ℕ) × (s : S) × (c ≡ holding handle s)

module _ {S : Type 0} ⦃m : Mysql S⦄ where
  -- Statements sent one after the other, whatever becomes of each.
  abbrev pub issue : List String → DbConnection S → DbConnection S
  issue [] c = c
  issue (text ∷ texts) c = issue texts (execute_query text c).1

  pub execute_query-IsHolding :
      (text : String) (c : DbConnection S) → IsHolding c → IsHolding (execute_query text c).1
  execute_query-IsHolding text c (handle, s, e) =
      let (b, s', e') = execute_query-holding text handle s in (handle, s', rw e (ap (λ r. r.1) e'))

  >>-issue :
      {A : Type 0} (text : String) (k : M S A) (c : DbConnection S)
      → IsHolding c
      → (execute_query text >> k) c ≡ k (execute_query text c).1
  >>-issue text k c (handle, s, e) =
      let (b, s', e') = execute_query-holding text handle s in rw (e, e') refl

module _ {D : Type 0} ⦃d : Double D⦄ where
  abbrev pub trade_statements : Order D → Order D → TradeRecord D → List String
  trade_statements a b t =
      "START TRANSACTION"
      ∷ update_statement a
      ∷ update_statement b
      ∷ trade_statement t
      ∷ "COMMIT"
      ∷ []

module _ {D S : Type 0} ⦃d : Double D⦄ ⦃m : Mysql S⦄ where
  persist_trade-issue :
      (a b : Order D) (t : TradeRecord D) (c : DbConnection S)
      → IsHolding c
      → persist_trade a b t c ≡ (ok tt, issue (trade_statements a b t) c)
  unfolding persist_trade
  persist_trade-issue a b t c h =
      let c1 = (execute_query "START TRANSACTION" c).1 in
      let h1 = execute_query-IsHolding "START TRANSACTION" c h in
      let c2 = (execute_query (update_statement a) c1).1 in
      let h2 = execute_query-IsHolding (update_statement a) c1 h1 in
      let c3 = (execute_query (update_statement b) c2).1 in
      let h3 = execute_query-IsHolding (update_statement b) c2 h2 in
      let c4 = (execute_query (trade_statement t) c3).1 in
      let h4 = execute_query-IsHolding (trade_statement t) c3 h3 in
      >>-issue "START TRANSACTION" _ c h
      ∙ >>-issue (update_statement a) _ c1 h1
      ∙ >>-issue (update_statement b) _ c2 h2
      ∙ >>-issue (trade_statement t) _ c3 h3
      ∙ >>-issue "COMMIT" _ c4 h4

module _ {D J : Type 0} ⦃d : Double D⦄ ⦃j : Json J⦄ ⦃c : Calendar⦄ (laws : IsJson J)
    (times : IsCalendar) (reread : D → D)
    (stod_text : (a : D) → d.stod (to_string a) ≡ some (reread a)) where
  pub text_of :
      (fields : List (String × J)) (k s : String)
      → last_of k fields ≡ some (j.of_string s)
      → string_at k (object_of j.null fields) ≡ ok s
  text_of fields k s e =
      string_at_lem laws times reread stod_text k (object_of j.null fields) s
        (got laws times reread stod_text fields k (j.of_string s) e)

  pub write-ne-empty : (v : J) → (j.write v == "") ≡ false
  write-ne-empty v = elim (Bool-cases (j.write v == "")) [
    | inr e ↦ e
    | inl e ↦
        let same = (eq_iff (j.write v) "").0 e in
        let absurd_path : ◌≡◌ {A = Option J} (some v) none =
          sym (laws.parse_write v) ∙ ap j.parse same ∙ laws.parse_empty in
        cc
  ]

module _ {D : Type 0} (J : Type 0) ⦃d : Double D⦄ ⦃j : Json J⦄ ⦃c : Calendar⦄ where
  abbrev trade_root : Order D → Order D → TradeRecord D → J
  trade_root a b t = object_of j.null (message_fields J (trade a b t))

module _ {D S J : Type 0} ⦃d : Double D⦄ ⦃j : Json J⦄ ⦃c : Calendar⦄ ⦃m : Mysql S⦄ (laws : IsJson J)
    (times : IsCalendar) (reread : D → D)
    (stod_text : (a : D) → d.stod (to_string a) ≡ some (reread a)) where
  process_message-trade :
      (a b : Order D) (t : TradeRecord D) (s : DbConnection S)
      → FitsOrder a
      → FitsOrder b
      → FitsTrade t
      → IsHolding s
      → process_message D J (trade_root J a b t) s ≡ (
        ok tt,
        issue
            (trade_statements
              (reread_order laws times reread stod_text a)
              (reread_order laws times reread stod_text b)
              (reread_trade laws times reread stod_text t))
            s,
      )
  unfolding process_message message_fields serialize_order serialize_trade_record
  process_message-trade a b t s fa fb ft h =
      let fs : List (String × J) = message_fields J (trade a b t) in
      rw
        (
          text_of laws times reread stod_text fs "type" "TRADE" refl,
          text_of laws times reread stod_text fs "buyOrder" (j.write (order_json a)) refl,
          deserialize_message-write laws times reread stod_text (order_json a),
          text_of laws times reread stod_text fs "sellOrder" (j.write (order_json b)) refl,
          deserialize_message-write laws times reread stod_text (order_json b),
          text_of laws times reread stod_text fs "tradeRecord" (j.write (trade_json t)) refl,
          deserialize_message-write laws times reread stod_text (trade_json t),
          order_json-is_object laws times reread stod_text a,
          order_json-is_object laws times reread stod_text b,
          trade_json-is_object laws times reread stod_text t,
          deserialize_order-order_json laws times reread stod_text a,
          deserialize_order-order_json laws times reread stod_text b,
          deserialize_trade_record-trade_json laws times reread stod_text t,
        )
        (persist_trade-issue (reread_order laws times reread stod_text a)
          (reread_order laws times reread stod_text b) (reread_trade laws times reread stod_text t)
          s h)

  -- The same for an unmatched order: one statement.
  process_message-unmatched_order :
      (o : Order D) (s : DbConnection S)
      → FitsOrder o
      → IsHolding s
      → process_message D J (object_of j.null (message_fields J (unmatched_order o))) s
        ≡ (ok tt, issue (update_statement (reread_order laws times reread stod_text o) ∷ []) s)
  unfolding process_message message_fields serialize_order
  process_message-unmatched_order o s f h =
      let fs : List (String × J) = message_fields J (unmatched_order o) in
      rw
        (
          text_of laws times reread stod_text fs "type" "UNMATCHED_ORDER" refl,
          text_of laws times reread stod_text fs "order" (j.write (order_json o)) refl,
          deserialize_message-write laws times reread stod_text (order_json o),
          order_json-is_object laws times reread stod_text o,
          deserialize_order-order_json laws times reread stod_text o,
        )
        (>>-issue (update_statement (reread_order laws times reread stod_text o)) done s h)

  run_round-write :
      (root : J) (s s' : DbConnection S)
      → process_message D J root s ≡ (ok tt, s')
      → run_round D J (message (j.write root)) s ≡ (handled, s')
  unfolding run_round
  run_round-write root s s' e =
      rw (write-ne-empty laws times reread stod_text root, laws.parse_write root, e) refl

  -- If jsoncpp and the calendar keep their laws, `std::stod` reads every `std::to_string a` as
  -- `reread a`, the ids fit their members and the connection has a handle, then a round on the text of a trade message is handled
  -- and sends, in this order, START TRANSACTION, an update for each of the two orders, an insert of the
  -- record, and COMMIT, all on the values reread, and all of them whatever becomes of each one.
  pub run_round-trade :
      (a b : Order D) (t : TradeRecord D) (handle : ℕ) (client : S)
      → FitsOrder a
      → FitsOrder b
      → FitsTrade t
      → run_round D J (message (encode_message J (trade a b t))) (holding handle client) ≡ (
        handled,
        issue
            (trade_statements
              (reread_order laws times reread stod_text a)
              (reread_order laws times reread stod_text b)
              (reread_trade laws times reread stod_text t))
            (holding handle client),
      )
  unfolding encode_message serialize_message
  run_round-trade a b t handle client fa fb ft =
      run_round-write (trade_root J a b t) (holding handle client) _
        (process_message-trade a b t (holding handle client) fa fb ft (handle, client, refl))

  -- Under the same hypotheses a round on the text of an unmatched order is handled and sends one
  -- update, on the values reread.
  pub run_round-unmatched_order :
      (o : Order D) (handle : ℕ) (client : S)
      → FitsOrder o
      → run_round D J (message (encode_message J (unmatched_order o))) (holding handle client) ≡ (
        handled,
        issue
            (update_statement (reread_order laws times reread stod_text o) ∷ [])
            (holding handle client),
      )
  unfolding encode_message serialize_message
  run_round-unmatched_order o handle client f =
      run_round-write (object_of j.null (message_fields J (unmatched_order o)))
        (holding handle client) _
        (process_message-unmatched_order o (holding handle client) f (handle, client, refl))
