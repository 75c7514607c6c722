-- ===== src/Persistence/Pipeline.antt =====
-- From an order's text to the database: a round of the engine of src/MatchingEngine.cpp, and then a
-- round of the program of src/PersistenceProgram.cpp for each message that the engine added.
use match_engine.Prelude.{
  ℕ, ◌<◌, ◌^◌, ◌≡◌, refl, sym, ap, ◌∙◌, String, some, List, [], ◌∷◌, ◌++◌, map, All,
}
use match_engine.Double.{Double, to_string}
use match_engine.Order.{Order}
use match_engine.Json.{Json, IsJson}
use match_engine.Serialization.Times.{Calendar, IsCalendar}
use match_engine.Serialization.RoundTrip.{FitsOrder, reread_order, reread_trade}
use match_engine.Engine.Trade.{Env, Message, unmatched_order, trade}
use match_engine.Engine.Process.{Engine}
use match_engine.Engine.Run
use match_engine.Engine.Words.{FitsMessage, FitsEngine, process_order_fits}
use match_engine.Database.Connection.{Mysql, DbConnection, execute_query}
use match_engine.Persistence.Statements.{update_statement}
use match_engine.Persistence.Program.{encode_message, Received, message, run_round}
use match_engine.Persistence.Delivery.{
  issue, IsHolding, trade_statements, execute_query-IsHolding, run_round-trade,
  run_round-unmatched_order,
}
use match_engine.Generator.Orders.{encode_order}
use match_engine.Generator.Feed.{run_round-encode_order}

module _ {S : Type 0} ⦃m : Mysql S⦄ where
  issue-append : (a b : List String) (s : DbConnection S) → issue (a ++ b) s ≡ issue b (issue a s)
  issue-append [] b s = refl
  issue-append (t ∷ a) b s = issue-append a b (execute_query t s).1

  issue-IsHolding :
      (texts : List String) (s : DbConnection S) → IsHolding s → IsHolding (issue texts s)
  issue-IsHolding [] s h = h
  issue-IsHolding (t ∷ texts) s h =
      issue-IsHolding texts (execute_query t s).1 (execute_query-IsHolding t s h)

module _ (D J : Type 0) {S : Type 0} ⦃d : Double D⦄ ⦃j : Json J⦄ ⦃c : Calendar⦄ ⦃m : Mysql S⦄ where
  -- The loop of `run`, over what `recv` gives.
  unfoldable pub run_rounds : List Received → DbConnection S → DbConnection S
  run_rounds [] s = s
  run_rounds (received ∷ rest) s = run_rounds rest (run_round D J received s).1

module _ {D : Type 0} (J : Type 0) ⦃d : Double D⦄ ⦃j : Json J⦄ ⦃c : Calendar⦄ where
  abbrev pub deliveries : List (Message D) → List Received
  deliveries = map λ m. message (encode_message J m)

module _ {D J : Type 0} ⦃d : Double D⦄ ⦃j : Json J⦄ ⦃c : Calendar⦄ (laws : IsJson J)
    (times : IsCalendar) (reread : D → D)
    (stod_text : (a : D) → d.stod (to_string a) ≡ some (reread a)) where
  -- The statements for one message, and for several in their order, on the values reread.
  abbrev pub statements : Message D → List String
  statements (unmatched_order o) =
      update_statement (reread_order laws times reread stod_text o) ∷ []
  statements (trade a b t) =
      trade_statements (reread_order laws times reread stod_text a)
        (reread_order laws times reread stod_text b) (reread_trade laws times reread stod_text t)

  abbrev pub all_statements : List (Message D) → List String
  all_statements [] = []
  all_statements (m ∷ ms) = statements m ++ all_statements ms

module _ {D S J : Type 0} ⦃d : Double D⦄ ⦃j : Json J⦄ ⦃c : Calendar⦄ ⦃m : Mysql S⦄ (laws : IsJson J)
    (times : IsCalendar) (reread : D → D)
    (stod_text : (a : D) → d.stod (to_string a) ≡ some (reread a)) where
  run_round-statements :
      (msg : Message D) (s : DbConnection S)
      → FitsMessage msg
      → IsHolding s
      → (run_round D J (message (encode_message J msg)) s).1
        ≡ issue (statements laws times reread stod_text msg) s
  run_round-statements (unmatched_order o) s f (handle, client, e) =
      rw e (ap (λ r. r.1) (run_round-unmatched_order laws times reread stod_text o handle client f))
  run_round-statements (trade a b t) s (fa, fb, ft) (handle, client, e) =
      rw e
        (ap (λ r. r.1) (run_round-trade laws times reread stod_text a b t handle client fa fb ft))

  pub run_rounds-deliveries :
      (messages : List (Message D)) (s : DbConnection S)
      → All FitsMessage messages
      → IsHolding s
      → run_rounds D J (deliveries J messages) s
        ≡ issue (all_statements laws times reread stod_text messages) s
  unfolding run_rounds
  run_rounds-deliveries [] s f h = refl
  run_rounds-deliveries (msg ∷ rest) s (f, fs) h =
      ap (run_rounds D J (deliveries J rest)) (run_round-statements msg s f h)
      ∙ run_rounds-deliveries rest (issue (statements laws times reread stod_text msg) s) fs
          (issue-IsHolding (statements laws times reread stod_text msg) s h)
      ∙ sym (
          issue-append (statements laws times reread stod_text msg)
            (all_statements laws times reread stod_text rest) s)

  -- If jsoncpp and the calendar keep their laws, `std::stod` reads every `std::to_string a` as
  -- `reread a`, `rand()` gives no more than 32 bits, the ids in the books and of the order fit their
  -- members, and the connection has a handle, then a round of the engine on the text that the
  -- generator sends for the order adds some messages and keeps the ids in the books fitting; and the rounds of the persistence program on the
  -- texts of these messages send the statements of each of them, in their order, and no others.
  pub run_rounds-run_round :
      (env : Env) (now : ℕ) (o : Order D) (e : Engine D) (s : DbConnection S)
      → ((n : ℕ) → env.rand n < 2 ^ 32)
      → FitsOrder o
      → FitsEngine e
      → IsHolding s
      → let e' = Run.run_round D J env now (Run.message (encode_order J o)) e in
        FitsEngine e'
        × (messages : List (Message D)) × (e'.results ≡ e.results ++ messages)
        × (run_rounds D J (deliveries J messages) s
            ≡ issue (all_statements laws times reread stod_text messages) s)
  run_rounds-run_round env now o e s small f fe h =
      let o' = reread_order laws times reread stod_text o in
      let round = run_round-encode_order laws times reread stod_text env now o e f in
      let (kept, messages, added, fits) = process_order_fits env now o' e small f fe in
      rw round (kept, messages, added, run_rounds-deliveries messages s fits h)
