-- ===== src/Json/Coded.antt =====
-- A concrete `Json` with all its laws, for the witnesses: an object has its number of entries and
-- their text, the newest first. A token is its characters, each behind a mark, and an end mark.
use Prim.Native.Char.{Char, code}
use text.Mathlib.Text.{◌==◌ as str_eq}
use match_engine.Prelude.{
  ℕ, zero, suc, ◌≡◌, refl, Bool, true, false, String, Option, none, some, ◌==◌, if◌then◌else◌,
  arith,
}
use match_engine.Prelude.Int.{pos}
use match_engine.Prelude.Result.{Result, ok, err, std_error}
use match_engine.Double.Whole.{strokes, count_strokes, count_strokes-strokes}
use match_engine.Json.{Json, IsRoot, IsJson}

abbrev mark : Char
mark = "x"

abbrev end : Char
end = "."

pub token_onto : String → String → String
token_onto String.[] rest = String.◌∷◌ end rest
token_onto (String.◌∷◌ c s) rest = String.◌∷◌ mark (String.◌∷◌ c (token_onto s rest))

-- `true` where a character of the token is due.
pub split_token : Bool → String → String × String
split_token due String.[] = ("", "")
split_token true (String.◌∷◌ c s) = let (t, rest) = split_token false s in (String.◌∷◌ c t, rest)
split_token false (String.◌∷◌ c s) =
    let more = split_token true s in if code c == 46 then ("", s) else more

pub split_token-token_onto : (s rest : String) → split_token false (token_onto s rest) ≡ (s, rest)
unfolding token_onto split_token
split_token-token_onto String.[] rest = refl
split_token-token_onto (String.◌∷◌ c s) rest = rw (split_token-token_onto s rest) refl

pub data Coded : Type 0 where
  null : Coded
  uint : ℕ → Coded
  string : String → Coded
  object : (entries : ℕ) → (body : String) → Coded

pub write : Coded → String
write null = "n"
write (uint n) = String.◌∷◌ "u" (strokes n)
write (string s) = String.◌∷◌ "t" s
write (object n body) = String.◌∷◌ "o" (token_onto (strokes n) body)

pub parse_object : String × String → Coded
parse_object (n, body) = object (count_strokes n) body

pub parse : String → Option Coded
unfolding parse_object
parse String.[] = none
parse (String.◌∷◌ c s) =
    if code c == b'n'
    then some null
    else if code c == b'u'
    then some (uint (count_strokes s))
    else if code c == b't'
    then some (string s)
    else if code c == b'o'
    then some (parse_object (split_token false s))
    else none

pub parse-write : (v : Coded) → parse (write v) ≡ some v
unfolding parse write
parse-write null = refl
parse-write (uint n) = rw (count_strokes-strokes n) refl
parse-write (string s) = refl
parse-write (object n body) =
    rw (split_token-token_onto (strokes n) body, count_strokes-strokes n) refl

pub found : Option Coded → Result Coded
found none = err (std_error "get")
found (some v) = ok v

-- The key and the value of the first entry, and the others.
pub scan : ℕ → String → String → Result Coded
unfolding found
scan zero k body = ok null
scan (suc n) k body =
    let (i, rest) = split_token false body in
    let (v, others) = split_token false rest in
    let later = scan n k others in if str_eq i k then found (parse v) else later

pub holds : ℕ → String → String → Bool
holds zero k body = false
holds (suc n) k body =
    let (i, rest) = split_token false body in
    let (v, others) = split_token false rest in
    let later = holds n k others in if str_eq i k then true else later

pub set : String → Coded → Coded → Coded
set i v (object n body) = object (suc n) (token_onto i (token_onto (write v) body))
set i v _ = object 1 (token_onto i (token_onto (write v) ""))

pub get : String → Coded → Result Coded
get k (object n body) = scan n k body
get k null = ok null
get k _ = err (std_error "operator[]")

instance abbrev pub coded : Json Coded
unfolding get set write parse holds
coded = record {
  null = null;
  set = set;
  of_uint = uint;
  of_string = string;
  is_object = λ v. elim v [ object n body ↦ true | _ ↦ false ];
  is_string = λ v. elim v [ string s ↦ true | _ ↦ false ];
  is_member = λ k v. elim v [ object n body ↦ holds n k body | _ ↦ false ];
  get = get;
  as_uint = λ v. elim v [ uint n ↦ ok n | null ↦ ok 0 | _ ↦ err (std_error "asUInt") ];
  as_uint64 = λ v. elim v [ uint n ↦ ok n | null ↦ ok 0 | _ ↦ err (std_error "asUInt64") ];
  as_int = λ v. elim v [ uint n ↦ ok (pos n) | null ↦ ok (pos 0) | _ ↦ err (std_error "asInt") ];
  as_string = λ v. elim v [ string s ↦ ok s | null ↦ ok "" | _ ↦ err (std_error "asString") ];
  write = write;
  parse = parse;
}

scan-entry :
    (n : ℕ) (k i : String) (v : Coded) (body : String)
    → scan (suc n) k (token_onto i (token_onto (write v) body))
      ≡ (if str_eq i k then ok v else scan n k body)
unfolding scan
scan-entry n k i v body =
    rw
      (
        split_token-token_onto i (token_onto (write v) body),
        split_token-token_onto (write v) body,
        parse-write v,
      )
      refl

holds-entry :
    (n : ℕ) (k i : String) (v : Coded) (body : String)
    → holds (suc n) k (token_onto i (token_onto (write v) body))
      ≡ (if str_eq i k then true else holds n k body)
unfolding holds
holds-entry n k i v body =
    rw (split_token-token_onto i (token_onto (write v) body), split_token-token_onto (write v) body)
      refl

set-is_object : (k : String) (v o : Coded) → IsRoot o → coded.is_object (coded.set k v o) ≡ true
unfolding coded set
set-is_object k v (object n body) r = refl
set-is_object k v null r = refl
set-is_object k v (uint n) r = refl
set-is_object k v (string s) r = refl

get-set :
    (k i : String) (v o : Coded)
    → IsRoot o
    → coded.get k (coded.set i v o) ≡ (if str_eq i k then ok v else coded.get k o)
unfolding coded get set
get-set k i v (object n body) r = scan-entry n k i v body
get-set k i v null r = unfold scan in (scan-entry zero k i v "")
get-set k i v (uint n) r = ground arith
get-set k i v (string s) r = ground arith

member-set :
    (k i : String) (v o : Coded)
    → IsRoot o
    → coded.is_member k (coded.set i v o) ≡ (if str_eq i k then true else coded.is_member k o)
unfolding coded set
member-set k i v (object n body) r = holds-entry n k i v body
member-set k i v null r = unfold holds in (holds-entry zero k i v "")
member-set k i v (uint n) r = ground arith
member-set k i v (string s) r = ground arith

pub coded-IsJson : IsJson Coded
unfolding coded
coded-IsJson = record {
  set_object = set-is_object;
  get_set = get-set;
  member_set = member-set;
  string_is_string = λ s. refl;
  as_string_of = λ s. refl;
  as_uint_of = λ n h. refl;
  as_uint64_of = λ n h. refl;
  as_int_of = λ n h. refl;
  parse_write = parse-write;
  parse_empty = refl;
}
