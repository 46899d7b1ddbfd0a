-- ===== src/Verify/Stored.antt =====
-- `verify` of src/pollard/verify.py on stores that are written through their operations.
use pollard.Common.{
  ℕ, zero, suc, ◌<◌, String, ◌≡◌, refl, true, false, not, List, [], ◌∷◌, Option, none, some, arith,
  ◌==◌, string_eq, Bool-cases, inl, inr, length,
}
use pollard.Common.Dict.{contains}
use pollard.Errors.{ok, >>=-eq-ok, raise_if}
use pollard.Hashing.{Sha256}
use pollard.Tree.{Node, expected_id}
use pollard.Store.{MemoryStore, empty, member, validate_for_put, digest_check}
use pollard.Store.Valid.{IsValid, empty-IsValid, parent_stored}
use pollard.Store.Append.{Write, run_writes, run_writes-IsValid}
use pollard.Store.Order.{IsOrdered, empty-IsOrdered, run_writes-IsOrdered, position, position-lt}
use pollard.Store.Walk.{stored_row, get-of_row}
use pollard.Verify.{verify}
use pollard.Verify.Chain.{IsIntact, Chain, top, link, verify_exact}

module _ ⦃h : Sha256⦄ where
  -- What `_validate_for_put` accepts is intact.
  pub accepted-IsIntact : (n : Node) → validate_for_put n ≡ ok tt → IsIntact n
  unfolding validate_for_put
  accepted-IsIntact n e =
      let (expected, q, e₁) = >>=-eq-ok (expected_id n) _ e in
      let (_, own, e₂) = >>=-eq-ok (raise_if (not (n.id == expected)) _) _ e₁ in
      let (_, digest, _) = >>=-eq-ok (digest_check n.result_text n.result_digest) _ e₂ in
      (ground (arith, q, own), ground (arith, digest))

not_seen :
    (s : MemoryStore) (id : String) (seen : List String)
    → (member id seen ≡ true → position id s.nodes < position id s.nodes)
    → member id seen ≡ false
not_seen s id seen h = elim (Bool-cases (member id seen)) [
  | inl old ↦ absurd (omega (arith, h old))
  | inr new ↦ new
]

module _ ⦃h : Sha256⦄ (s : MemoryStore) (v : IsValid s) (o : IsOrdered s) where
  stored-Chain :
      (k : ℕ) (seen : List String) (current : Option String)
      → parent_stored s.nodes current ≡ true
      → ((id : String) → current ≡ some id → position id s.nodes < k)
      → ((id x : String)
          → current ≡ some id
          → member x seen ≡ true
          → position id s.nodes < position x s.nodes)
      → Chain s seen current
  stored-Chain k seen none there low above = top seen
  stored-Chain zero seen (some id) there low above = absurd (omega (arith, low id refl))
  stored-Chain (suc k) seen (some id) there low above =
      let (n, e) = stored_row id s.nodes there in
      let r = v.rows id n e in
      link seen id n (not_seen s id seen (above id id refl)) (get-of_row s id n e)
        (accepted-IsIntact n r.accepted)
        (stored-Chain k (id ∷ seen) n.parent r.parent_there
          (λ p q. omega (arith, o.before id p n e q, low id refl))
          (λ p x q m. elim (Bool-cases (id == x)) [
            | inl same ↦ ground (arith, o.before id p n e q, string_eq.beq_iff id x)
            | inr other ↦ omega (arith, o.before id p n e q, above id x refl (ground arith))
          ]))

  pub stored_verifies : (id : String) → contains id s.nodes ≡ true → verify s id ≡ some []
  stored_verifies id there = (verify_exact s id).1 (
      stored-Chain (length s.nodes) [] (some id) there
        (λ j q. ground (arith, position-lt id s.nodes there)) (λ j x q m. absurd (cc)))

-- After any writes to an empty store, refused ones among them, every stored node verifies: it and
-- its ancestors are intact, up to a root.
pub run_writes-verify :
    ⦃h : Sha256⦄ (ws : List Write) (id : String)
    → contains id (run_writes ws empty).nodes ≡ true
    → verify (run_writes ws empty) id ≡ some []
run_writes-verify ws id there =
    stored_verifies (run_writes ws empty) (run_writes-IsValid ws empty empty-IsValid)
      (run_writes-IsOrdered ws empty empty-IsValid empty-IsOrdered) id there
