-- ===== src/Double.antt =====
-- What the code does with a `double`. The type and its operations are a parameter: an instance of
-- `Double`, with the comparisons, the arithmetic, `std::round`, `std::pow(10.0, n)`, the output
-- in fixed notation and `std::stod` that the sources use. `IsRanked` and `IsExact` state what the IEEE 754 standard says
-- of the values to which a theorem is restricted; the definitions never use them.
pub mod Whole
use match_engine.Prelude.{
  ℕ, ◌+◌, ◌-◌, ◌≤◌, ◌≡◌, Bool, true, String, Option, ltb, leb, ◌==◌, if◌then◌else◌,
}

pub record Double (D : Type 0) : Type 0 where
  pub nought : D
  pub lt : D → D → Bool
  pub le : D → D → Bool
  pub eq : D → D → Bool
  pub add : D → D → D
  pub sub : D → D → D
  pub mul : D → D → D
  pub div : D → D → D
  pub round : D → D
  pub ten_to : ℕ → D
  -- `std::fixed << std::setprecision(n)`.
  pub to_fixed : ℕ → D → String
  pub stod : String → Option D
  -- The text of the exception that `std::stod` throws.
  pub stod_error : String → String

-- The order on prices. The doubles that are numbers and not negative compare as their bit patterns
-- do, so each has a rank among the naturals. `is_price` says which values are meant.
pub record IsRanked (D : Type 0) ⦃d : Double D⦄ : Type 0 where
  pub is_price : D → Bool
  pub rank : D → ℕ
  pub lt_rank : (a b : D) → is_price a ≡ true → is_price b ≡ true → d.lt a b ≡ ltb (rank a) (rank b)

-- Exact arithmetic on quantities. Every operation of IEEE 754 is rounded correctly, so on the
-- multiples of one power of two, up to 2^53 of them, comparisons, sums and differences are those of
-- the multiples. `on_grid` says which values are meant, `units` which multiple a value is.
pub record IsExact (D : Type 0) ⦃d : Double D⦄ : Type 0 where
  pub on_grid : D → Bool
  pub units : D → ℕ
  pub limit : ℕ
  pub units-le : (a : D) → on_grid a ≡ true → units a ≤ limit
  pub nought_grid : on_grid d.nought ≡ true
  pub nought_units : units d.nought ≡ 0
  pub lt_units :
      (a b : D) → on_grid a ≡ true → on_grid b ≡ true → d.lt a b ≡ ltb (units a) (units b)
  pub le_units :
      (a b : D) → on_grid a ≡ true → on_grid b ≡ true → d.le a b ≡ leb (units a) (units b)
  pub eq_units : (a b : D) → on_grid a ≡ true → on_grid b ≡ true → d.eq a b ≡ (units a == units b)
  pub add_grid :
      (a b : D)
      → on_grid a ≡ true
      → on_grid b ≡ true
      → units a + units b ≤ limit
      → on_grid (d.add a b) ≡ true
  pub add_units :
      (a b : D)
      → on_grid a ≡ true
      → on_grid b ≡ true
      → units a + units b ≤ limit
      → units (d.add a b) ≡ units a + units b
  pub sub_grid :
      (a b : D)
      → on_grid a ≡ true
      → on_grid b ≡ true
      → units b ≤ units a
      → on_grid (d.sub a b) ≡ true
  pub sub_units :
      (a b : D)
      → on_grid a ≡ true
      → on_grid b ≡ true
      → units b ≤ units a
      → units (d.sub a b) ≡ units a - units b

module _ {D : Type 0} ⦃d : Double D⦄ where
  -- `std::min(a, b)`.
  unfoldable pub min_of : D → D → D
  min_of a b = if d.lt b a then b else a

  -- `std::to_string`, which is `printf` with `%f`: six digits behind the point.
  unfoldable pub to_string : D → String
  to_string a = d.to_fixed 6 a
