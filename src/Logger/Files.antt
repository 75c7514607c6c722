-- ===== src/Logger/Files.antt =====
-- The name that a line of the log of Logger/Lines.antt gives to a source file.
use Prim.Native.String.append
use Prim.Native.Char.{Char}
use match_engine.Prelude.{
  ℕ, suc, ◌≡◌, refl, ap, sym, ◌∙◌, true, false, inl, inr, ◌⊎◌, String, Option, none, some, ◌<>◌,
  Bool-cases, if◌then◌else◌,
}
use match_engine.Logger.Lines.{is_separator, find_last_of, substr, file_name}

abbrev pub LacksSeparator : String → Type 0
LacksSeparator String.[] = Unit
LacksSeparator (String.◌∷◌ c text) = (is_separator c ≡ false) × LacksSeparator text

-- A text is some directory, a separator and a name that has none.
abbrev pub IsLastPart : (file name : String) → Type 0
IsLastPart file name =
    (directory : String) × (separator : Char) × (is_separator separator ≡ true)
    × (file ≡ directory <> String.◌∷◌ separator name)
    × LacksSeparator name

-- What the position found says of the text.
abbrev Found : String → Option ℕ → Type 0
Found file none = LacksSeparator file
Found file (some n) = IsLastPart file (substr (suc n) file)

Found-cons :
    (c : Char) (text : String) (found : Option ℕ)
    → Found text found
    → Found
        (String.◌∷◌ c text)
        (elim found [ some n ↦ some (suc n) | none ↦ if is_separator c then some 0 else none ])
unfolding substr
Found-cons c text (some n) (directory, separator, is, e, lacks) = (
  String.◌∷◌ c directory,
  separator,
  is,
  ap (String.◌∷◌ c) e ∙ sym (append.cons c directory (String.◌∷◌ separator (substr (suc n) text))),
  lacks,
)
Found-cons c text none lacks = elim (Bool-cases (is_separator c)) [
  | inl is ↦ rw is ("", c, is, sym (append.nil (String.◌∷◌ c text)), lacks)
  | inr other ↦ rw other (other, lacks)
]

find_last_of-Found : (file : String) → Found file (find_last_of file)
unfolding find_last_of
find_last_of-Found String.[] = tt
find_last_of-Found (String.◌∷◌ c text) =
    Found-cons c text (find_last_of text) (find_last_of-Found text)

part-Found :
    (file : String) (found : Option ℕ)
    → Found file found
    → let name : String = elim found [ none ↦ file | some n ↦ substr (suc n) file ] in
      (name ≡ file) × LacksSeparator file ⊎ IsLastPart file name
part-Found file none h = inl (refl, h)
part-Found file (some n) h = inr h

-- The name of a file is the whole of its path, if this has no slash and no backslash; else it is what
-- stands behind the last of them.
pub file_name-IsLastPart :
    (file : String)
    → (file_name file ≡ file) × LacksSeparator file ⊎ IsLastPart file (file_name file)
unfolding file_name
file_name-IsLastPart file = part-Found file (find_last_of file) (find_last_of-Found file)
