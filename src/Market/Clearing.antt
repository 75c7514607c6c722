-- ===== src/Market/Clearing.antt =====
-- The generator's loop of src/OrderGenerator.cpp, the engine of src/MatchingEngine.cpp on its texts, and the
-- rounds of src/PersistenceProgram.cpp on what the engine sends.
use mathlib.Core.List.{append_assoc, append-nil}
use match_engine.Prelude.{
  ℕ, zero, suc, ◌+◌, ◌*◌, ◌^◌, ◌<◌, ◌≡◌, refl, sym, ap, subst, ◌∙◌, true, String, some, List, [],
  ◌∷◌, ◌++◌, map, arith, All, All-append,
}
use match_engine.Double.{Double, to_string, IsRanked, IsExact}
use match_engine.Order.{Order}
use match_engine.Json.{Json, IsJson}
use match_engine.Serialization.Times.{Calendar, IsCalendar}
use match_engine.Serialization.RoundTrip.{FitsOrder}
use match_engine.Database.Connection.{Mysql, DbConnection}
use match_engine.Persistence.Delivery.{issue, IsHolding}
use match_engine.Persistence.Pipeline.{
  run_rounds, deliveries, all_statements, run_rounds-deliveries,
}
use match_engine.Generator.Orders.{
  round_to_precision, Draws, Stoul, Generator, create_random_order, encode_order, generate_loop,
}
use match_engine.Engine.Trade.{Env, Message}
use match_engine.Engine.Process.{Engine, new_engine, process_order}
use match_engine.Engine.Run.{run}
use match_engine.Engine.Exact.{remaining}
use match_engine.Engine.Sweep.{open_book}
use match_engine.Engine.Messages.{traded_units}
use match_engine.Engine.Invariant.{IsValid, IsAdmissible}
use match_engine.Engine.Words.{FitsMessage, FitsEngine, process_order_fits}
use match_engine.Engine.Throttle.{process_orders}
use match_engine.Engine.Totals.{ordered, process_orders-IsValid}
use match_engine.Engine.Arrivals.{run-process_orders}
use match_engine.Market.Orders.{
  new_orders, generate_loop-sent, delivered, reread_at, accepted, arrivals-delivered,
  accepted-FitsOrder, accepted-Distinct,
}

module _ {D : Type 0} ⦃d : Double D⦄ where
  -- The ids of a whole run stay in their words, and so do those in its messages.
  process_orders_fits :
      (env : Env) (orders : List (ℕ × Order D)) (e : Engine D)
      → ((n : ℕ) → env.rand n < 2 ^ 32)
      → All (λ (now, o). FitsOrder o) orders
      → FitsEngine e
      → (messages : List (Message D)) × ((process_orders env orders e).results
          ≡ e.results ++ messages)
        × All FitsMessage messages
  unfolding process_orders
  process_orders_fits env [] e small f fe = ([], sym (append-nil e.results), tt)
  process_orders_fits env ((now, o) ∷ rest) e small (f, fs) fe =
      let (fe', first, added, fits) = process_order_fits env now o e small f fe in
      let (later, added', fits') =
        process_orders_fits env rest (process_order env now o e) small fs fe' in
      (
        first ++ later,
        added' ∙ ap (λ l. l ++ later) added ∙ append_assoc e.results first later,
        All-append FitsMessage first later fits fits',
      )

new_engine-FitsEngine : (D : Type 0) → FitsEngine (new_engine D)
unfolding new_engine
new_engine-FitsEngine D = (tt, tt)

module _ {D : Type 0} ⦃d : Double D⦄ (k : IsRanked D) (x : IsExact D) (reread : D → D)
    (draws : Draws D) where
  -- What a draw gives, rounded and reread: a price that is a number, and an exact quantity of something.
  pub record IsTradable : Type 0 where
    pub price_known : (n : ℕ) → k.is_price (reread (round_to_precision (draws.price n) 8)) ≡ true
    pub quantity_grid :
        (n : ℕ) → x.on_grid (reread (round_to_precision (draws.quantity n) 6)) ≡ true
    pub wants : (n : ℕ) → 0 < x.units (reread (round_to_precision (draws.quantity n) 6))
    pub filled_grid : x.on_grid (reread d.nought) ≡ true
    pub filled_units : x.units (reread d.nought) ≡ 0

  -- The units that the draws ask for.
  abbrev pub drawn : (number index : ℕ) → ℕ
  drawn zero index = 0
  drawn (suc number) index =
      x.units (reread (round_to_precision (draws.quantity index) 6)) + drawn number (suc index)

module _ {D J : Type 0} ⦃d : Double D⦄ ⦃j : Json J⦄ ⦃c : Calendar⦄ (k : IsRanked D) (x : IsExact D)
    (laws : IsJson J) (times : IsCalendar) (reread : D → D)
    (stod_text : (a : D) → d.stod (to_string a) ≡ some (reread a)) (draws : Draws D) (clock : ℕ → ℕ)
    (tradable : IsTradable k x reread draws) where
  pub reread_at-IsAdmissible :
      (index counter : ℕ)
      → IsAdmissible k x (reread_at laws times reread stod_text draws clock index counter)
        × (remaining x (reread_at laws times reread stod_text draws clock index counter)
            ≡ x.units (reread (round_to_precision (draws.quantity index) 6)))
  unfolding create_random_order
  reread_at-IsAdmissible index counter =
      let wants = tradable.wants index in
      (
        record {
          price_known = tradable.price_known index;
          live = record {
            quantity_grid = tradable.quantity_grid index;
            filled_grid = tradable.filled_grid;
            filled-le = omega (arith, tradable.filled_units);
          };
          wants = omega (arith, tradable.filled_units, wants);
        },
        omega (arith, tradable.filled_units),
      )

  accepted-IsAdmissible :
      (number index counter : ℕ)
      → All
          (λ (now, o). IsAdmissible k x o)
          (accepted laws times reread stod_text draws clock number index counter)
        × (ordered x (accepted laws times reread stod_text draws clock number index counter)
            ≡ drawn k x reread draws number index)
  accepted-IsAdmissible zero index counter = (tt, refl)
  accepted-IsAdmissible (suc number) index counter =
      let (fine, units) = reread_at-IsAdmissible index counter in
      let (later, sum) =
        accepted-IsAdmissible number (suc index) (create_random_order draws index counter).0 in
      ((fine, later), omega (arith, units, sum))

  module _ {S : Type 0} ⦃p : Stoul⦄ ⦃m : Mysql S⦄ where
    abbrev pub IsCleared : (number : ℕ) → DbConnection S → Engine D → Type 0
    IsCleared number s e =
        IsValid k x e
        × (drawn k x reread draws number 0
            ≡ open_book x e.buy_orders + open_book x e.sell_orders + 2 * traded_units x e.results)
        × (run_rounds D J (deliveries J e.results) s
            ≡ issue (all_statements laws times reread stod_text e.results) s)

    run_rounds_of_new :
        (results messages : List (Message D)) (s : DbConnection S)
        → results ≡ (new_engine D).results ++ messages
        → All FitsMessage messages
        → IsHolding s
        → run_rounds D J (deliveries J results) s
          ≡ issue (all_statements laws times reread stod_text results) s
    unfolding new_engine
    run_rounds_of_new results messages s e fits h =
        let same : results ≡ messages = e in
        run_rounds-deliveries laws times reread stod_text results s
          (subst (All FitsMessage) (sym same) fits) h

    -- If jsoncpp and the calendar keep their laws, `std::stod` reads every `std::to_string a` as `reread a`,
    -- what is drawn is tradable, the ids stay in 32 bits, `rand()` gives no more than 32 bits, and both
    -- connections have handles: then an engine that starts empty and gets the texts of the generator's
    -- loop, in their order, is valid, the units drawn are those open in its books and twice those of its
    -- trades, and the rounds of the persistence program on its messages send the statements of each of
    -- them, in their order, and no others.
    pub run-generate_loop :
        (env : Env) (number : ℕ) (g : Generator S) (s : DbConnection S)
        → ((n : ℕ) → env.rand n < 2 ^ 32)
        → g.order_id_counter + number < 2 ^ 32
        → g.sent ≡ []
        → IsHolding g.db
        → IsHolding s
        → let sent = (generate_loop D J draws number 0 g).1.sent in
          let e = run D J env (delivered clock 0 sent) (new_engine D) in IsCleared number s e
    run-generate_loop env number g s small ids empty hg hs =
        let counter = g.order_id_counter in
        let texts = map (encode_order J) (new_orders draws number 0 counter) in
        let orders = accepted laws times reread stod_text draws clock number 0 counter in
        let sent : (generate_loop D J draws number 0 g).1.sent ≡ texts =
          generate_loop-sent J draws number 0 g hg ∙ ap (λ l. l ++ texts) empty in
        let (fine, units) = accepted-IsAdmissible number 0 counter in
        let distinct =
          accepted-Distinct laws times reread stod_text draws clock number 0 counter ids in
        let (valid, sum) = process_orders-IsValid k x env orders fine distinct in
        let fits = accepted-FitsOrder laws times reread stod_text draws clock number 0 counter in
        let (messages, added, small_ids) =
          process_orders_fits env orders (new_engine D) small fits (new_engine-FitsEngine D) in
        let read : run D J env (delivered clock 0 texts) (new_engine D)
            ≡ process_orders env orders (new_engine D) =
          run-process_orders D J env (delivered clock 0 texts) (new_engine D)
          ∙ ap (λ l. process_orders env l (new_engine D))
              (arrivals-delivered laws times reread stod_text draws clock number 0 counter) in
        let run_of : List String → Engine D =
          λ l. run D J env (delivered clock 0 l) (new_engine D) in
        subst (IsCleared number s) (sym (ap run_of sent ∙ read)) (
          valid,
          sym units ∙ sum,
          run_rounds_of_new (process_orders env orders (new_engine D)).results messages s added
              small_ids hs,
        )
