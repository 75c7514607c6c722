-- ===== src/OrderedMap.antt =====
-- What the engine uses of `std::map`: a list of entries in the order of iteration, by the comparison
-- of its keys. Two keys are one where neither comes before the other.
pub mod Sorted
use match_engine.Prelude.{Bool, Option, none, some, List, [], ◌∷◌, if◌then◌else◌}

abbrev pub OrderedMap : Type 0 → Type 0 → Type 0
OrderedMap K V = List (K × V)

module _ {K V : Type 0} (before : K → K → Bool) where
  -- `m[k]`, changed in place: `f` is given the value that is there, or `none` where the map makes a
  -- new entry. The key of an entry stays the one that it was made with.
  unfoldable pub update : K → (Option V → V) → OrderedMap K V → OrderedMap K V
  update k f [] = (k, f none) ∷ []
  update k f ((j, v) ∷ m) =
      let rest = update k f m in
      if before k j
      then (k, f none) ∷ (j, v) ∷ m
      else if before j k
      then (j, v) ∷ rest
      else (j, f (some v)) ∷ m
