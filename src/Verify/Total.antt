-- ===== src/Verify/Total.antt =====
-- The loop of `verify` of src/pollard/verify.py.
use pollard.Common.{
  ℕ, zero, suc, ◌≤◌, ◌<◌, String, ◌≡◌, refl, true, false, List, [], ◌∷◌, ◌++◌, Option, none, some,
  arith, string_eq, if◌then◌else◌, Bool-cases, inl, inr, length,
}
use pollard.Common.Dict.{Dict, contains}
use pollard.Errors.{ok, Result-cases}
use pollard.Hashing.{Sha256}
use pollard.Tree.{Node}
use pollard.Store.{MemoryStore, get, member}
use pollard.Verify.{Finding, verify, verify_loop, node_findings, cycle, missing}

-- How many rows the loop has not seen.
abbrev unseen : List String → Dict String Node → ℕ
unseen seen [] = 0
unseen seen ((id, n) ∷ d) = if member id seen then unseen seen d else suc (unseen seen d)

unseen-le :
    (id : String) (seen : List String) (d : Dict String Node) → unseen (id ∷ seen) d ≤ unseen seen d
unseen-le id seen [] = omega arith
unseen-le id seen ((j, n) ∷ d) = ground (arith, unseen-le id seen d)

-- A stored id that is seen now is one row less.
unseen-lt :
    (id : String) (seen : List String) (d : Dict String Node)
    → member id seen ≡ false
    → contains id d ≡ true
    → unseen (id ∷ seen) d < unseen seen d
unseen-lt id seen [] new there = absurd (cc)
unseen-lt id seen ((j, n) ∷ d) new there = ground (
  arith,
  unseen-le id seen d,
  unseen-lt id seen d,
  string_eq.beq_iff j id,
  string_eq.beq_iff id j,
)

unseen-le-length : (seen : List String) (d : Dict String Node) → unseen seen d ≤ length d
unseen-le-length seen [] = omega arith
unseen-le-length seen ((j, n) ∷ d) = ground (arith, unseen-le-length seen d)

stored-of_get :
    (s : MemoryStore) (id : String) (n : Node) → get s id ≡ ok n → contains id s.nodes ≡ true
unfolding get
stored-of_get s id n e = ground arith

module _ ⦃h : Sha256⦄ where
  loop_total :
      (fuel : ℕ) (s : MemoryStore) (seen : List String) (current : Option String)
      → unseen seen s.nodes < fuel
      → (fs : List Finding) × (verify_loop fuel s seen current ≡ some fs)
  unfolding verify_loop
  loop_total zero s seen current lt = absurd (omega arith)
  loop_total (suc fuel) s seen none lt = ([], refl)
  loop_total (suc fuel) s seen (some id) lt = elim (Bool-cases (member id seen)) [
    | inl again ↦ ((id, cycle) ∷ [], ground arith)
    | inr new ↦ elim (Result-cases (get s id)) [
      | inr (e, gone) ↦ ((id, missing) ∷ [], ground arith)
      | inl (n, found) ↦
          let (rest, q) =
            loop_total fuel s (id ∷ seen) n.parent
              (omega (arith, unseen-lt id seen s.nodes new (stored-of_get s id n found))) in
          (node_findings n ++ rest, ground (arith, q))
    ]
  ]

  -- `verify` ends on every store: its loop returns a report within one round for each row and one.
  pub verify_total : (s : MemoryStore) (id : String) → (fs : List Finding) × (verify s id ≡ some fs)
  unfolding verify
  verify_total s id =
      loop_total (suc (length s.nodes)) s [] (some id) (omega (arith, unseen-le-length [] s.nodes))
