-- ===== src/Seal/Intact.antt =====
-- Which nodes `seal` of src/pollard/seal.py accepts.
use pollard.Common.{
  ℕ, suc, ◌<◌, String, ◌≡◌, ◌↔◌, refl, sym, ◌∙◌, true, not, List, [], ◌∷◌, some, arith, ◌==◌,
  string_eq, All, length, inl, inr,
}
use pollard.Common.Dict.{contains}
use pollard.Errors.{ok, raise_if, Result-cases, >>=-eq-ok}
use pollard.Hashing.{Sha256}
use pollard.Tree.{Node, expected_id}
use pollard.Store.{MemoryStore}
use pollard.Store.Valid.{IsValid}
use pollard.Store.Order.{IsOrdered}
use pollard.Store.Walk.{Walks, done, visit, walk_total, row-of_get}
use pollard.Verify.Chain.{IsIntact}
use pollard.Verify.Stored.{accepted-IsIntact}
use pollard.Seal.Rolling.{seal_at, with_entry, seal_rest, seal_nodes-cons}
use pollard.Seal.{SealEntry, SealReport, seal_nodes, validate_node, seal_entry, seal_of, sealed}

module _ ⦃h : Sha256⦄ where
  IsIntact-validate_node : (n : Node) → IsIntact n → validate_node n ≡ ok tt
  unfolding validate_node
  IsIntact-validate_node n (i, d) = elim (Result-cases (expected_id n)) [
    | inl (expected, e) ↦ rw e (ground (arith, rw e at i, d))
    | inr (x, e) ↦ absurd (cc (rw e at i))
  ]

  validate_node-IsIntact : (n : Node) (u : Unit {0}) → validate_node n ≡ ok u → IsIntact n
  unfolding validate_node
  validate_node-IsIntact n u e =
      let (expected, q, e₁) = >>=-eq-ok (expected_id n) _ e in
      let (_, own, e₂) = >>=-eq-ok (raise_if (not (n.id == expected)) _) _ e₁ in
      (ground (arith, q, own), ground (arith, e₂))

  abbrev Seals : ℕ → String → List Node → Type 0
  Seals index previous nodes =
      (r : String × List SealEntry) × (seal_nodes index previous nodes ≡ ok r)

  Seals-All :
      (index : ℕ) (previous : String) (nodes : List Node)
      → Seals index previous nodes
      → All IsIntact nodes
  Seals-All index previous [] s = tt
  Seals-All index previous (n ∷ nodes) (r, e) =
      let (u, good, e₁) =
        >>=-eq-ok (validate_node n) (λ _. seal_rest index n previous nodes)
          (sym (seal_nodes-cons index previous n nodes) ∙ e) in
      let (rest, q, _) = >>=-eq-ok (seal_nodes (suc index) (seal_at index n previous) nodes) _ e₁ in
      (
        validate_node-IsIntact n u good,
        Seals-All (suc index) (seal_at index n previous) nodes (rest, q),
      )

  all_step :
      (index : ℕ) (previous : String) (n : Node) (nodes : List Node)
      (rest : String × List SealEntry)
      → validate_node n ≡ ok tt
      → seal_nodes (suc index) (seal_at index n previous) nodes ≡ ok rest
      → seal_nodes index previous (n ∷ nodes)
        ≡ ok (with_entry (seal_entry index n previous (seal_at index n previous)) rest)
  all_step index previous n nodes rest good q =
      seal_nodes-cons index previous n nodes ∙ (rw good (rw q refl))

  All-Seals :
      (index : ℕ) (previous : String) (nodes : List Node)
      → All IsIntact nodes
      → Seals index previous nodes
  unfolding seal_nodes
  All-Seals index previous [] i = ((previous, []), refl)
  All-Seals index previous (n ∷ nodes) i =
      let (rest, q) = All-Seals (suc index) (seal_at index n previous) nodes i.1 in
      (
        with_entry (seal_entry index n previous (seal_at index n previous)) rest,
        all_step index previous n nodes rest (IsIntact-validate_node n i.0) q,
      )

  -- Nodes are sealed exactly when each of them is intact: its id and its result digest are those of
  -- its contents.
  pub seal_nodes_exact :
      (index : ℕ) (previous : String) (nodes : List Node)
      → ((r : String × List SealEntry) × (seal_nodes index previous nodes ≡ ok r))
        ↔ All IsIntact nodes
  seal_nodes_exact index previous nodes =
      (Seals-All index previous nodes, All-Seals index previous nodes)

  Walks-IsIntact :
      {s : MemoryStore} {pending : List String} {out : List Node}
      → IsValid s
      → Walks s pending out
      → All IsIntact out
  Walks-IsIntact v done = tt
  Walks-IsIntact {s} v (visit {id} n g c w) =
      (accepted-IsIntact n ((v.rows id n (row-of_get s id n g)).accepted), Walks-IsIntact v w)

  -- In a valid store whose rows are in order, the subtree of every stored id is sealed: there is one
  -- report that every fuel above the number of its nodes yields.
  pub seal_total :
      (s : MemoryStore) (root : String)
      → IsValid s
      → IsOrdered s
      → contains root s.nodes ≡ true
      → (out : List Node) × (report : SealReport) × Walks s (root ∷ []) out
        × ((fuel : ℕ) → length out < fuel → seal_of fuel s root ≡ some (ok report))
  unfolding seal_of
  seal_total s root v o there =
      let (out, w, walked) = walk_total s v o root there in
      let (r, e) = All-Seals 0 "" out (Walks-IsIntact v w) in
      (out, sealed root r, w, λ fuel lt. rw (walked fuel lt) (rw e refl))
