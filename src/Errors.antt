-- ===== src/Errors.antt =====
-- The exceptions that the modelled code raises (src/pollard/errors.py, and Python's own), and the
-- results of code that may raise. `does_not_end` stands for a loop that goes on for ever. Messages
-- are represented by what they say, without the ids that some of them repeat.
use pollard.Common.{String, ◌≡◌, refl, Bool, true, false, ◌⊎◌, inl, inr}

-- What an `IntegrityError` reports.
pub data Fault : Type 0 where
  id_mismatch digest_missing digest_mismatch root_with_parent id_collision : Fault
  retry_changed_request already_settled already_released expired_before_retry : Fault
  unknown_reservation different_charges details_missing budget_missing : Fault
  result_collision recording_failed scope_mismatch : Fault
  crosses_delegation outside_subtree other_registry unbound_registry : Fault

pub data Error : Type 0 where
  key_error : String → Error
  type_error value_error runtime_error arithmetic_error : Error
  does_not_end : Error
  integrity_error : Fault → Error
  missing_recording duplicate_recording : String → Error
  reservation_uncertain settlement_uncertain : String → Error

pub data Result {ℓ} (A : Type ℓ) : Type ℓ where
  ok : A → Result A
  err : Error → Result A

pub Result-cases {ℓ} :
    {A : Type ℓ} (r : Result A) → ((a : A) × (r ≡ ok a)) ⊎ ((e : Error) × (r ≡ err e))
Result-cases (ok a) = inl (a, refl)
Result-cases (err e) = inr (e, refl)

pub ok_injective {ℓ} : {A : Type ℓ} (a b : A) → ok a ≡ ok b → a ≡ b
ok_injective a b h = cc

-- `if c: raise e`
abbrev pub raise_if : Bool → Error → Result (Unit {0})
raise_if true e = err e
raise_if false e = ok tt

pub raise_if-eq-ok : (c : Bool) (e : Error) → raise_if c e ≡ ok tt → c ≡ false
raise_if-eq-ok true e h = cc
raise_if-eq-ok false e h = refl

infixl 5 ◌>>=◌ ◌>>◌
-- What follows a statement that may raise is not run when it does.
abbrev pub ◌>>=◌ {ℓ₁ ℓ₂} :
    {A : Type ℓ₁} {B : Type ℓ₂} (before : Result A) (after : A → Result B) → Result B
err e >>= after = err e
ok a >>= after = after a

abbrev pub ◌>>◌ {ℓ} : {B : Type ℓ} (before : Result (Unit {0})) (after : Result B) → Result B
before >> after = before >>= (λ done. after)

-- A chain that succeeded: its first step did, and so did the rest at its value.
pub >>=-eq-ok {ℓ₁ ℓ₂} :
    {A : Type ℓ₁} {B : Type ℓ₂} (before : Result A) (after : A → Result B) {b : B}
    (e : (before >>= after) ≡ ok b)
    → (a : A) × (before ≡ ok a) × (after a ≡ ok b)
>>=-eq-ok (err x) after e = cc
>>=-eq-ok (ok a) after e = (a, refl, e)
