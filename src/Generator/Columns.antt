-- ===== src/Generator/Columns.antt =====
-- The columns of a row as src/OrderGenerator.cpp reads them: `row.at`, `std::stoul`, `std::stod`.
use text.Mathlib.Text.{◌==◌}
use match_engine.Prelude.{
  ℕ, ◌≡◌, refl, ◌∙◌, inl, inr, String, some, none, [], ◌∷◌, Option-cases, Bool-cases, arith,
}
use match_engine.Prelude.Result.{Result, ok, err, std_error, ◌>>=◌}
use match_engine.Double.{Double}
use match_engine.Json.{last_of}
use match_engine.Database.Connection.{Row}
use match_engine.Generator.Orders.{Stoul, column, read_ulong, read_stod}

-- The column is there, and `stoul` reads the number in it.
abbrev pub UlongAt : ⦃p : Stoul⦄ → Row → String → ℕ → Type 0
UlongAt ⦃p⦄ row key n = (text : String) × (last_of key row ≡ some text) × (p.stoul text ≡ some n)

-- The column is there, and `stod` reads the number in it.
abbrev pub DoubleAt : {D : Type 0} → ⦃d : Double D⦄ → Row → String → D → Type 0
DoubleAt ⦃d⦄ row key a = (text : String) × (last_of key row ≡ some text) × (d.stod text ≡ some a)

column-last_of :
    (key : String) (row : Row)
    → column key row ≡ elim (last_of key row) [ some v ↦ ok v | none ↦ err (std_error "map::at") ]
unfolding column
column-last_of key [] = refl
column-last_of key ((name, value) ∷ row) = elim (Option-cases (last_of key row)) [
  | inr (v, e) ↦
      let there : column key row ≡ ok v = column-last_of key row ∙ rw e refl in rw (e, there) refl
  | inl e ↦
      let missing : column key row ≡ err (std_error "map::at") =
        column-last_of key row ∙ rw e refl in
      elim (Bool-cases (name == key)) [
        | inl b ↦ rw (e, missing, b) refl
        | inr b ↦ rw (e, missing, b) refl
      ]
]

pub column_text :
    (key text : String) (row : Row) → last_of key row ≡ some text → column key row ≡ ok text
column_text key text row e = column-last_of key row ∙ rw e refl

pub column-last :
    (key text : String) (row : Row) → column key row ≡ ok text → last_of key row ≡ some text
column-last key text row e = elim (Option-cases (last_of key row)) [
  | inr (v, e') ↦ let there = column_text key v row e' in cc
  | inl e' ↦
      let missing : column key row ≡ err (std_error "map::at") =
        column-last_of key row ∙ rw e' refl in
      cc
]

pub ok_injective : {A : Type 0} (a b : A) → ok a ≡ ok b → a ≡ b
ok_injective a b e = cc

pub bind-ok :
    {A B : Type 0} (r : Result A) (f : A → Result B) (b : B)
    → (r >>= f) ≡ ok b
    → (a : A) × (r ≡ ok a) × (f a ≡ ok b)
bind-ok (ok a) f b e = (a, refl, e)
bind-ok (err x) f b e = let bad : err x ≡ ok b = e in cc

module _ ⦃p : Stoul⦄ where
  pub ulong_at :
      (row : Row) (key : String) (n : ℕ)
      → UlongAt row key n
      → (column key row >>= read_ulong) ≡ ok n
  unfolding read_ulong
  ulong_at row key n (text, e, s) = rw (column_text key text row e, read_ulong, s) refl

  pub ulong-UlongAt :
      (row : Row) (key : String) (n : ℕ)
      → (column key row >>= read_ulong) ≡ ok n
      → UlongAt row key n
  unfolding read_ulong
  ulong-UlongAt row key n e =
      let (text, c, s) = bind-ok (column key row) read_ulong n e in
      (text, column-last key text row c, ground arith)

module _ {D : Type 0} ⦃d : Double D⦄ where
  pub double_at :
      (row : Row) (key : String) (a : D)
      → DoubleAt row key a
      → (column key row >>= read_stod) ≡ ok a
  unfolding read_stod
  double_at row key a (text, e, s) = rw (column_text key text row e, read_stod, s) refl

  pub double-DoubleAt :
      (row : Row) (key : String) (a : D)
      → (column key row >>= read_stod) ≡ ok a
      → DoubleAt row key a
  unfolding read_stod
  double-DoubleAt row key a e =
      let (text, c, s) = bind-ok (column key row) read_stod a e in
      (text, column-last key text row c, ground arith)
