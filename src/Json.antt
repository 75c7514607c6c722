-- ===== src/Json.antt =====
-- What the code uses of jsoncpp, which is not part of the repository: a parameter. `set` is
-- `root[key] = value`, `get` reads `root[key]`, and a conversion that throws has the text of the
-- exception. `IsJson` states the documented behaviour of objects that are built key by key, of the
-- conversions of what was put in, and of reading back what was written.
pub mod Coded
use text.Mathlib.Text.{◌==◌}
use match_engine.Prelude.{
  ℕ, ◌<◌, ◌^◌, ◌≡◌, ◌≢◌, refl, ◌⊎◌, inl, inr, Bool, true, false, String, Option, none, some, List,
  [], ◌∷◌, if◌then◌else◌, arith,
}
use match_engine.Prelude.Int.{ℤ, pos}
use match_engine.Prelude.Result.{Result, ok}

pub record Json (J : Type 0) : Type 0 where
  pub null : J
  pub set : String → J → J → J
  pub of_uint : ℕ → J
  pub of_string : String → J
  pub is_object : J → Bool
  pub is_string : J → Bool
  pub is_member : String → J → Bool
  pub get : String → J → Result J
  pub as_uint : J → Result ℕ
  pub as_uint64 : J → Result ℕ
  pub as_int : J → Result ℤ
  pub as_string : J → Result String
  pub write : J → String
  pub parse : String → Option J

module _ {J : Type 0} ⦃j : Json J⦄ where
  -- `Json::Value root;` followed by an assignment for each key.
  unfoldable pub object_of : J → List (String × J) → J
  object_of root [] = root
  object_of root ((k, v) ∷ fields) = object_of (j.set k v root) fields

  -- What can be given members: the fresh value and the objects.
  abbrev pub IsRoot : J → Type 0
  IsRoot v = (v ≡ j.null) ⊎ (j.is_object v ≡ true)

pub record IsJson (J : Type 0) ⦃j : Json J⦄ : Type 0 where
  pub set_object : (k : String) (v o : J) → IsRoot o → j.is_object (j.set k v o) ≡ true
  pub get_set :
      (k i : String) (v o : J)
      → IsRoot o
      → j.get k (j.set i v o) ≡ (if i == k then ok v else j.get k o)
  pub member_set :
      (k i : String) (v o : J)
      → IsRoot o
      → j.is_member k (j.set i v o) ≡ (if i == k then true else j.is_member k o)
  pub string_is_string : (s : String) → j.is_string (j.of_string s) ≡ true
  pub as_string_of : (s : String) → j.as_string (j.of_string s) ≡ ok s
  pub as_uint_of : (n : ℕ) → n < 2 ^ 32 → j.as_uint (j.of_uint n) ≡ ok n
  pub as_uint64_of : (n : ℕ) → n < 2 ^ 64 → j.as_uint64 (j.of_uint n) ≡ ok n
  pub as_int_of : (n : ℕ) → n < 2 ^ 31 → j.as_int (j.of_uint n) ≡ ok (pos n)
  pub parse_write : (v : J) → j.parse (j.write v) ≡ some v
  pub parse_empty : j.parse "" ≡ none

-- The last value that a list of assignments gives to a key.
abbrev pub last_of {ℓ} : {A : Type ℓ} → String → List (String × A) → Option A
last_of k [] = none
last_of k ((i, v) ∷ fields) = elim (last_of k fields) [
  | some w ↦ some w
  | none ↦ if i == k then some v else none
]

module _ {J : Type 0} ⦃j : Json J⦄ (laws : IsJson J) where
  pub get-object_of :
      (k : String) (root : J) (fields : List (String × J))
      → IsRoot root
      → j.get k (object_of root fields)
        ≡ elim (last_of k fields) [ some v ↦ ok v | none ↦ j.get k root ]
  unfolding object_of
  get-object_of k root [] r = refl
  get-object_of k root ((i, v) ∷ fields) r = ground (
    arith,
    get-object_of k (j.set i v root) fields (inr (laws.set_object i v root r)),
    laws.get_set k i v root r,
  )

  pub member-object_of :
      (k : String) (root : J) (fields : List (String × J))
      → IsRoot root
      → j.is_member k (object_of root fields)
        ≡ elim (last_of k fields) [ some v ↦ true | none ↦ j.is_member k root ]
  unfolding object_of
  member-object_of k root [] r = refl
  member-object_of k root ((i, v) ∷ fields) r = ground (
    arith,
    member-object_of k (j.set i v root) fields (inr (laws.set_object i v root r)),
    laws.member_set k i v root r,
  )

  -- A value with a key is an object.
  pub object-object_of :
      (root : J) (fields : List (String × J))
      → IsRoot root
      → fields ≢ []
      → j.is_object (object_of root fields) ≡ true
  unfolding object_of
  object-object_of root [] r h = absurd (h refl)
  object-object_of root ((i, v) ∷ []) r h = laws.set_object i v root r
  object-object_of root ((i, v) ∷ (k, w) ∷ fields) r h =
      object-object_of (j.set i v root) ((k, w) ∷ fields) (inr (laws.set_object i v root r))
        (λ e. cc)
