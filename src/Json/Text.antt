-- ===== src/Json/Text.antt =====
-- The serializer that src/pollard/_canon.py and src/pollard/hashing.py call: `json.dumps` with sorted
-- keys, no spaces and `ensure_ascii=False`, as code points.
use Prim.Native.Char.{code}
use Prim.Native.String as Native
use pollard.Common.{
  ℕ, zero, suc, ◌+◌, ◌/◌, ◌%◌, String, ◌≡◌, refl, Bool, true, false, List, [], ◌∷◌, ◌++◌, ◌==◌, ltb,
  if◌then◌else◌,
}
use pollard.Common.{nat_eq}
use pollard.Common.Int.{ℤ, pos, negsuc}
use pollard.Common.Sort.{sorted}
use pollard.Json.{Json, null, bool, int, float, str, arr, obj, Items, nil, cons, Fields, end, field}

-- Texts are lists of code points.
abbrev pub Text : Type 0
Text = List ℕ

abbrev pub codes : String → Text
codes Native.[] = []
codes (Native.◌∷◌ c s) = code c ∷ codes s

-- Python's order of strings, by code points.
abbrev pub text_before : Text → Text → Bool
text_before [] [] = false
text_before [] (b ∷ s) = true
text_before (a ∷ r) [] = false
text_before (a ∷ r) (b ∷ s) = if ltb a b then true else if ltb b a then false else text_before r s

abbrev pub str_before : String → String → Bool
str_before s t = text_before (codes s) (codes t)

-- The decimal digits of a number below the fuel.
digits : ℕ → ℕ → Text
digits zero n = []
digits (suc f) n =
    let rest = digits f (n / 10) in if ltb n 10 then (48 + n) ∷ [] else rest ++ (48 + n % 10) ∷ []

unfoldable pub int_text : ℤ → Text
unfolding digits
int_text (pos n) = digits (suc n) n
int_text (negsuc n) = b'-' ∷ digits (suc (suc n)) (suc n)

digit_string : ℕ → String
digit_string n =
    if n == 0
    then "0"
    else if n == 1
    then "1"
    else if n == 2
    then "2"
    else if n == 3
    then "3"
    else if n == 4
    then "4"
    else if n == 5
    then "5"
    else if n == 6
    then "6"
    else if n == 7
    then "7"
    else if n == 8
    then "8"
    else "9"

digits_string : ℕ → ℕ → String
digits_string zero n = ""
digits_string (suc f) n =
    let rest = digits_string f (n / 10) in
    if ltb n 10 then digit_string n else Native.◌++◌ rest (digit_string (n % 10))

-- `str(n)`
unfoldable pub int_string : ℤ → String
unfolding digits_string digit_string
int_string (pos n) = digits_string (suc n) n
int_string (negsuc n) = Native.◌++◌ "-" (digits_string (suc (suc n)) (suc n))

hex_digit : ℕ → ℕ
hex_digit n = if ltb n 10 then 48 + n else 87 + n

-- The escapes of `json.dumps`: quotes, backslashes and control characters.
unfoldable pub escape : ℕ → Text
unfolding hex_digit
escape c =
    if c == b'"'
    then b'\\' ∷ b'"' ∷ []
    else if c == b'\\'
    then b'\\' ∷ b'\\' ∷ []
    else if c == 8
    then b'\\' ∷ b'b' ∷ []
    else if c == 9
    then b'\\' ∷ b't' ∷ []
    else if c == 10
    then b'\\' ∷ b'n' ∷ []
    else if c == 12
    then b'\\' ∷ b'f' ∷ []
    else if c == 13
    then b'\\' ∷ b'r' ∷ []
    else if ltb c 32
    then b'\\' ∷ b'u' ∷ b'0' ∷ b'0' ∷ hex_digit (c / 16) ∷ hex_digit (c % 16) ∷ []
    else c ∷ []

escape_all : Text → Text
escape_all [] = []
escape_all (c ∷ cs) = escape c ++ escape_all cs

unfoldable pub quote : String → Text
unfolding escape_all escape
quote s = b'"' ∷ (escape_all (codes s) ++ b'"' ∷ [])

abbrev pub join : List Text → Text
join [] = []
join (t ∷ []) = t
join (t ∷ u ∷ ts) = t ++ (b',' ∷ join (u ∷ ts))

abbrev pub key_before : String × Text → String × Text → Bool
key_before p q = str_before p.0 q.0

abbrev pub entry_texts : List (String × Text) → List Text
entry_texts [] = []
entry_texts ((k, t) ∷ es) = (quote k ++ (b':' ∷ t)) ∷ entry_texts es

unfoldable mutual
  unfolding quote int_text

  pub dumps : Json → Text
  dumps null = codes "null"
  dumps (bool true) = codes "true"
  dumps (bool false) = codes "false"
  dumps (int n) = int_text n
  dumps (float t) = t
  dumps (str s) = quote s
  dumps (arr xs) = b'[' ∷ (join (dumps_items xs) ++ b']' ∷ [])
  dumps (obj fs) = b'{' ∷ (join (entry_texts (sorted key_before (dumps_fields fs))) ++ b'}' ∷ [])

  pub dumps_items : Items → List Text
  dumps_items nil = []
  dumps_items (cons x xs) = dumps x ∷ dumps_items xs

  pub dumps_fields : Fields → List (String × Text)
  dumps_fields end = []
  dumps_fields (field k v fs) = (k, dumps v) ∷ dumps_fields fs

dumps_example :
    dumps
      (obj (field "b" (int (negsuc 11)) (field "a" (arr (cons null (cons (str "x\"y") nil))) end)))
    ≡ codes "{\"a\":[null,\"x\\\"y\"],\"b\":-12}"
unfolding dumps
dumps_example = refl

int_string_example : int_string (negsuc 1209) ≡ "-1210"
unfolding int_string
int_string_example = refl
