-- ===== src/Common/Dict.antt =====
-- Python's `dict` in insertion order, as an association list.
use pollard.Common.Tests.{Eq, ◌==◌, if◌then◌else◌, is_some, Bool-cases}
use pollard.Common.Lists.{keep_if}
use mathlib.Core.Path.{◌≡◌, refl}
use mathlib.Core.Logic.{inl, inr}
use mathlib.Core.Bool.{Bool, not}
use mathlib.Core.Option.{Option, none, some}
use mathlib.Core.List.{List, [], ◌∷◌, ◌++◌, map}
use native.Mathlib.Omega.{arith}

abbrev pub Dict {ℓ} : Type ℓ → Type ℓ → Type ℓ
Dict K V = List (K × V)

module _ {ℓ} {K V : Type ℓ} ⦃e : Eq K⦄ where
  -- `d.get(k)`
  abbrev pub lookup : K → Dict K V → Option V
  lookup k [] = none
  lookup k ((j, v) ∷ d) = if j == k then some v else lookup k d

  -- `k in d`
  abbrev pub contains : K → Dict K V → Bool
  contains k d = is_some (lookup k d)

  -- `d[k] = v`
  abbrev pub insert : K → V → Dict K V → Dict K V
  insert k v [] = (k, v) ∷ []
  insert k v ((j, w) ∷ d) = if j == k then (j, v) ∷ d else (j, w) ∷ insert k v d

  -- `{k: v for k, v in d.items() if p(k)}`
  abbrev pub filter_keys : (K → Bool) → Dict K V → Dict K V
  filter_keys p = keep_if (λ (kv : K × V). p kv.0)

  -- `d.pop(k, None)`, and a deletion of a key that is there
  abbrev pub remove : K → Dict K V → Dict K V
  remove k = filter_keys (λ j. not (j == k))

  abbrev pub keys : Dict K V → List K
  keys = map (λ (kv : K × V). kv.0)

  abbrev pub values : Dict K V → List V
  values = map (λ (kv : K × V). kv.1)

  pub lookup-insert :
      (k j : K) (v : V) (d : Dict K V)
      → lookup j (insert k v d) ≡ (if k == j then some v else lookup j d)
  lookup-insert k j v [] = refl
  lookup-insert k j v ((i, w) ∷ d) =
      ground (arith, e.beq_iff k j, e.beq_iff i k, e.beq_iff i j, lookup-insert k j v d)

  pub lookup-filter_keys :
      (p : K → Bool) (j : K) (d : Dict K V)
      → lookup j (filter_keys p d) ≡ (if p j then lookup j d else none)
  lookup-filter_keys p j [] = ground arith
  lookup-filter_keys p j ((i, w) ∷ d) = elim (Bool-cases (i == j)) [
    | inl same ↦ ground (arith, e.beq_iff i j, lookup-filter_keys p j d)
    | inr other ↦ ground (arith, lookup-filter_keys p j d)
  ]

  -- A key that is not there is put at the end.
  pub insert_new :
      (k : K) (v : V) (d : Dict K V) → lookup k d ≡ none → insert k v d ≡ d ++ (k, v) ∷ []
  insert_new k v [] h = refl
  insert_new k v ((i, w) ∷ d) h = ground (arith, insert_new k v d)

-- A dictionary has no key twice.
module _ {ℓ} {K V : Type ℓ} ⦃e : Eq K⦄ where
  abbrev pub Unique : Dict K V → Type ℓ
  Unique [] = Unit
  Unique ((k, v) ∷ d) = (lookup k d ≡ none) × Unique d

  pub Unique-insert : (k : K) (v : V) (d : Dict K V) → Unique d → Unique (insert k v d)
  Unique-insert k v [] u = (refl, tt)
  Unique-insert k v ((j, w) ∷ d) u = elim (Bool-cases (j == k)) [
    | inl here ↦ rw here u
    | inr there ↦ rw there (
      ground (arith, lookup-insert k j v d, e.beq_iff k j, e.beq_iff j k, u.0),
      Unique-insert k v d u.1,
    )
  ]
