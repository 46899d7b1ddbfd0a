-- ===== src/Verify/Chain.antt =====
-- The report of `verify` of src/pollard/verify.py against chains of ancestors.
use pollard.Common.{
  ℕ, zero, suc, String, ◌≡◌, ◌↔◌, refl, ap, sym, ◌∙◌, true, false, List, [], ◌∷◌, ◌++◌, Option,
  none, some, arith, string_eq, Bool-cases, inl, inr, ◌⊎◌, ◌≢◌, Option-cases, length,
}
use pollard.Errors.{ok, Result-cases}
use pollard.Hashing.{Sha256}
use pollard.Tree.{Node, expected_id}
use pollard.Store.{MemoryStore, get, member}
use pollard.Verify.{Finding, verify, verify_loop, node_findings, id_matches, digest_matches}
use pollard.Verify.Total.{verify_total}

module _ ⦃h : Sha256⦄ where
  -- The id and the digest of a node are those of its contents.
  abbrev pub IsIntact : Node → Type 0
  IsIntact n =
      (id_matches n.id (expected_id n) ≡ true)
      × (digest_matches n.result_digest n.result_text ≡ true)

  -- A chain of intact stored nodes from `current` up to a root, none of them in `seen` or twice.
  pub data Chain (s : MemoryStore) : List String → Option String → Type 0 where
    top : (seen : List String) → Chain s seen none
    link :
        (seen : List String) (id : String) (n : Node)
        → member id seen ≡ false
        → get s id ≡ ok n
        → IsIntact n
        → Chain s (id ∷ seen) n.parent
        → Chain s seen (some id)

  node_findings-IsIntact : (n : Node) → node_findings n ≡ [] → IsIntact n
  unfolding node_findings
  node_findings-IsIntact n e = ground arith

  intact-node_findings : (n : Node) → IsIntact n → node_findings n ≡ []
  unfolding node_findings
  intact-node_findings n (i, d) = rw (i, d)

  append-nil_left : {A : Type 0} (xs ys : List A) → xs ++ ys ≡ [] → (xs ≡ []) × (ys ≡ [])
  append-nil_left [] ys e = (refl, e)
  append-nil_left (x ∷ xs) ys e = absurd (cc)

  -- A round that goes on, and what it adds to the report.
  loop_step :
      (fuel : ℕ) (s : MemoryStore) (seen : List String) (id : String) {fs : List Finding}
      → verify_loop (suc fuel) s seen (some id) ≡ some fs
      → (fs ≢ [])
        ⊎ ((n : Node) × (rest : List Finding) × (member id seen ≡ false)
            × (get s id ≡ ok n)
            × (verify_loop fuel s (id ∷ seen) n.parent ≡ some rest)
            × (fs ≡ node_findings n ++ rest))
  unfolding verify_loop
  loop_step fuel s seen id e = elim (Bool-cases (member id seen)) [
    | inl again ↦ inl (λ q. ground arith)
    | inr new ↦ elim (Result-cases (get s id)) [
      | inr (x, gone) ↦ inl (λ q. ground arith)
      | inl (n, found) ↦ elim (Option-cases (verify_loop fuel s (id ∷ seen) n.parent)) [
        | inl out ↦ absurd (ground arith)
        | inr (rest, q) ↦ inr (n, rest, new, found, q, ground arith)
      ]
    ]
  ]

  loop-Chain :
      (fuel : ℕ) (s : MemoryStore) (seen : List String) (current : Option String)
      → verify_loop fuel s seen current ≡ some []
      → Chain s seen current
  unfolding verify_loop
  loop-Chain fuel s seen none e = top seen
  loop-Chain zero s seen (some id) e = absurd (cc)
  loop-Chain (suc fuel) s seen (some id) e = elim (loop_step fuel s seen id e) [
    | inl some_finding ↦ absurd (some_finding refl)
    | inr (n, rest, new, found, q, sum) ↦
        let (own, above) = append-nil_left (node_findings n) rest (sym sum) in
        link seen id n new found (node_findings-IsIntact n own)
          (loop-Chain fuel s (id ∷ seen) n.parent (q ∙ ap some above))
  ]

  Chain-loop :
      (fuel : ℕ) {s : MemoryStore} {seen : List String} {current : Option String}
      {fs : List Finding}
      → Chain s seen current
      → verify_loop fuel s seen current ≡ some fs
      → fs ≡ []
  unfolding verify_loop
  Chain-loop zero (top seen) e = cc
  Chain-loop (suc fuel) (top seen) e = cc
  Chain-loop zero (link seen id n new found intact c) e = absurd (cc)
  Chain-loop (suc fuel) {s} (link seen id n new found intact c) e =
      elim (Option-cases (verify_loop fuel s (id ∷ seen) n.parent)) [
        | inl out ↦ absurd (ground (arith, new, found))
        | inr (rest, q) ↦
            ground (arith, new, found, intact-node_findings n intact, Chain-loop fuel c q)
      ]

  -- `verify` reports no finding exactly when the node and its ancestors, up to a root, are stored,
  -- intact and without a cycle.
  pub verify_exact :
      (s : MemoryStore) (id : String) → (verify s id ≡ some []) ↔ Chain s [] (some id)
  unfolding verify
  verify_exact s id =
      let (fs, e) = verify_total s id in
      (
        loop-Chain (suc (length s.nodes)) s [] (some id),
        λ c. e ∙ ap some (Chain-loop (suc (length s.nodes)) c e),
      )
