-- ===== src/Persistence/Status.antt =====
-- The status that src/PersistenceProgram.cpp writes, against the fate of the order in
-- `matchOrders` of src/MatchingEngine.cpp.
use match_engine.Prelude.{◌≡◌, refl, true, [], ◌∷◌, arith}
use match_engine.Double.{Double, IsExact}
use match_engine.Json.{Json}
use match_engine.Order.{Order}
use match_engine.Engine.Trade.{unmatched_order}
use match_engine.Engine.Match.{Book}
use match_engine.Engine.Book.{add_order_to_book}
use match_engine.Engine.Process.{settle}
use match_engine.Engine.Exact.{IsLive, filled_test}
use match_engine.Persistence.Statements.{status_of}

module _ {D : Type 0} ⦃d : Double D⦄ (x : IsExact D) where
  -- An order with exact quantities that asks for nothing goes into the book and is reported as
  -- unmatched, and is written as FULLY_FILLED.
  pub settle-empty_order :
      (o : Order D) (own : Book D)
      → IsLive x o
      → x.units o.quantity ≡ 0
      → ((settle o own).own ≡ add_order_to_book o own)
        × ((settle o own).sent ≡ unmatched_order o ∷ [])
        × (status_of o ≡ "FULLY_FILLED")
  unfolding settle status_of
  settle-empty_order o own v e =
      let full = filled_test x o v in
      let zero_test = x.eq_units o.filled_quantity d.nought v.filled_grid x.nought_grid in
      let none_filled = v.filled-le in
      let z = x.nought_units in
      let hit : d.eq o.filled_quantity d.nought ≡ true = ground arith in
      (rw hit refl, rw hit refl, ground arith)
