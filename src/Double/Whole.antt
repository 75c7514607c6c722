-- ===== src/Double/Whole.antt =====
-- A concrete `Double` for the witnesses and tests: whole numbers, exact up to 2^53.
use match_engine.Prelude.{
  ℕ, zero, suc, ◌+◌, ◌-◌, ◌*◌, ◌/◌, ◌^◌, ◌≤◌, ◌≡◌, refl, ap, true, String, some, arith, ltb, leb,
  leb→le, ◌==◌,
}
use match_engine.Double.{to_string, Double, IsRanked, IsExact}

-- Whole numbers are written as that many strokes: the format plays no part where `Whole` is used.
unfoldable pub strokes : ℕ → String
strokes zero = ""
strokes (suc n) = String.◌∷◌ "|" (strokes n)

unfoldable pub count_strokes : String → ℕ
count_strokes String.[] = 0
count_strokes (String.◌∷◌ c s) = suc (count_strokes s)

pub count_strokes-strokes : (n : ℕ) → count_strokes (strokes n) ≡ n
unfolding count_strokes strokes
count_strokes-strokes zero = refl
count_strokes-strokes (suc n) = ap suc (count_strokes-strokes n)

instance abbrev pub whole : Double ℕ
whole = record {
  nought = 0;
  lt = ltb;
  le = leb;
  eq = ◌==◌;
  add = ◌+◌;
  sub = ◌-◌;
  mul = ◌*◌;
  div = ◌/◌;
  round = λ a. a;
  ten_to = λ n. 10 ^ n;
  to_fixed = λ n. strokes;
  stod = λ s. some (count_strokes s);
  stod_error = λ s. "stod";
}

abbrev pub whole_ranked : IsRanked ℕ
whole_ranked = record { is_price = λ a. true; rank = λ a. a; lt_rank = λ a b p q. refl }

abbrev pub max_exact : ℕ
max_exact = 2 ^ 53

pub grid_of_le : (a : ℕ) → a ≤ max_exact → leb a max_exact ≡ true
grid_of_le a h = ground arith

pub sub_bound : (a b : ℕ) → leb a max_exact ≡ true → a - b ≤ max_exact
sub_bound a b p = ground arith

abbrev pub whole_exact : IsExact ℕ
whole_exact = record {
  on_grid = λ a. leb a max_exact;
  units = λ a. a;
  limit = max_exact;
  units-le = λ a g. leb→le a max_exact g;
  nought_grid = refl;
  nought_units = refl;
  lt_units = λ a b p q. refl;
  le_units = λ a b p q. refl;
  eq_units = λ a b p q. refl;
  add_grid = λ a b p q h. grid_of_le (a + b) h;
  add_units = λ a b p q h. refl;
  sub_grid = λ a b p q h. grid_of_le (a - b) (sub_bound a b p);
  sub_units = λ a b p q h. refl;
}

pub stod-to_string : (a : ℕ) → whole.stod (to_string a) ≡ some a
unfolding to_string
stod-to_string a = ap some (count_strokes-strokes a)
