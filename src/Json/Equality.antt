-- ===== src/Json/Equality.antt =====
-- Python's `==` on identity values, which src/pollard/store.py compares: objects are equal whatever the
-- order of their keys, a Boolean equals 0 or 1, and an integer equals the float of its value. A float is
-- compared by the text that `repr` prints: both zeros are equal, and an integer is printed with `.0`
-- behind it; from 10 ^ 16 on, where `repr` uses exponents, an integer and a float count as unequal.
use pollard.Common.{
  ℕ, suc, ◌≡◌, refl, Bool, true, false, ◌&&◌, if◌then◌else◌, [], ◌∷◌, ◌++◌, none, some, String,
  arith, ◌==◌, eq_refl,
}
use pollard.Common.{nat_eq, string_eq}
use pollard.Common.Int.{ℤ, pos, int_eq}
use pollard.Json.{
  Json, null, bool, int, float, str, arr, obj, Items, nil, cons, Fields, end, field, get_field,
}
use pollard.Json.Text.{Text, codes, int_text}

abbrev pub text_beq : Text → Text → Bool
text_beq [] [] = true
text_beq (a ∷ r) (b ∷ s) = a == b && text_beq r s
text_beq _ _ = false

abbrev pub bool_int : Bool → ℤ
bool_int true = pos 1
bool_int false = pos 0

-- `-0.0 == 0.0`
abbrev pub unsigned_zero : Text → Text
unsigned_zero t = if text_beq t (codes "-0.0") then codes "0.0" else t

abbrev pub float_beq : Text → Text → Bool
float_beq s t = text_beq (unsigned_zero s) (unsigned_zero t)

unfoldable pub int_float_beq : ℤ → Text → Bool
int_float_beq n t = text_beq (int_text n ++ codes ".0") (unsigned_zero t)

abbrev pub count_fields : Fields → ℕ
count_fields end = 0
count_fields (field k v fs) = suc (count_fields fs)

unfoldable mutual
  pub json_eq : Json → Json → Bool
  json_eq null null = true
  json_eq (bool a) (bool b) = bool_int a == bool_int b
  json_eq (bool a) (int n) = bool_int a == n
  json_eq (int m) (bool b) = m == bool_int b
  json_eq (int m) (int n) = m == n
  json_eq (bool a) (float t) = int_float_beq (bool_int a) t
  json_eq (float s) (bool b) = int_float_beq (bool_int b) s
  json_eq (int m) (float t) = int_float_beq m t
  json_eq (float s) (int n) = int_float_beq n s
  json_eq (float s) (float t) = float_beq s t
  json_eq (str s) (str t) = s == t
  json_eq (arr xs) (arr ys) = items_eq xs ys
  json_eq (obj fs) (obj gs) = count_fields fs == count_fields gs && fields_within fs gs
  json_eq _ _ = false

  pub items_eq : Items → Items → Bool
  items_eq nil nil = true
  items_eq (cons x xs) (cons y ys) = json_eq x y && items_eq xs ys
  items_eq _ _ = false

  pub fields_within : Fields → Fields → Bool
  fields_within end gs = true
  fields_within (field k v fs) gs =
      (elim (get_field k gs) [ none ↦ false | some w ↦ json_eq v w ]) && fields_within fs gs

pub text_beq_refl : (t : Text) → text_beq t t ≡ true
text_beq_refl [] = refl
text_beq_refl (a ∷ t) = rw (eq_refl a) (text_beq_refl t)

-- A Python value: no dictionary has a key twice.
unfoldable mutual
  pub Distinct : Json → Type 0
  Distinct null = Unit
  Distinct (bool b) = Unit
  Distinct (int n) = Unit
  Distinct (float t) = Unit
  Distinct (str s) = Unit
  Distinct (arr xs) = DistinctItems xs
  Distinct (obj fs) = DistinctFields fs

  pub DistinctItems : Items → Type 0
  DistinctItems nil = Unit
  DistinctItems (cons x xs) = Distinct x × DistinctItems xs

  pub DistinctFields : Fields → Type 0
  DistinctFields end = Unit
  DistinctFields (field k v fs) = (get_field k fs ≡ none) × Distinct v × DistinctFields fs

-- Every entry of `fs` is one of `gs`.
abbrev Within : Fields → Fields → Type 0
Within fs gs = (j : String) (w : Json) → get_field j fs ≡ some w → get_field j gs ≡ some w

Within-tail :
    (k : String) (v : Json) (fs gs : Fields)
    → get_field k fs ≡ none
    → Within (field k v fs) gs
    → Within fs gs
Within-tail k v fs gs new h j w e = h j w (ground (arith, string_eq.beq_iff k j))

Within-head :
    (k : String) (v : Json) (fs gs : Fields) → Within (field k v fs) gs → get_field k gs ≡ some v
Within-head k v fs gs h = h k v (ground (arith, eq_refl k))

mutual
  unfolding json_eq Distinct

  json_eq_self : (j : Json) → Distinct j → json_eq j j ≡ true
  json_eq_self null d = refl
  json_eq_self (bool b) d = eq_refl (bool_int b)
  json_eq_self (int n) d = eq_refl n
  json_eq_self (float t) d = text_beq_refl (unsigned_zero t)
  json_eq_self (str s) d = eq_refl s
  json_eq_self (arr xs) d = items_eq_self xs d
  json_eq_self (obj fs) d = rw (eq_refl (count_fields fs)) (fields_self fs fs d (λ j w e. e))

  items_eq_self : (xs : Items) → DistinctItems xs → items_eq xs xs ≡ true
  items_eq_self nil d = refl
  items_eq_self (cons x xs) d = rw (json_eq_self x d.0) (items_eq_self xs d.1)

  fields_self : (fs gs : Fields) → DistinctFields fs → Within fs gs → fields_within fs gs ≡ true
  fields_self end gs d h = refl
  fields_self (field k v fs) gs d h = ground (
    arith,
    Within-head k v fs gs h,
    json_eq_self v d.1,
    fields_self fs gs d.2 (Within-tail k v fs gs d.0 h),
  )

-- Python's `==` holds between a value and itself.
pub json_eq_refl : (j : Json) → Distinct j → json_eq j j ≡ true
json_eq_refl j d = json_eq_self j d
