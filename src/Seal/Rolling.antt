-- ===== src/Seal/Rolling.antt =====
-- `seal` of src/pollard/seal.py as a loop that can be continued.
use pollard.Common.{ℕ, suc, String, ◌≡◌, refl, List, [], ◌∷◌, ◌++◌, inl, inr}
use pollard.Errors.{Result, ok, ◌>>=◌, ◌>>◌, Result-cases}
use pollard.Hashing.{Sha256}
use pollard.Json.Text.{dumps}
use pollard.Json.Canonical.{canonical_bytes, validate_identity_value}
use pollard.Tree.{Node}
use pollard.Seal.{SealEntry, seal_nodes, validate_node, seal_record, seal_entry, seal_domain}

module _ ⦃h : Sha256⦄ where
  record_bytes :
      (index : ℕ) (node : Node) (previous : String)
      → canonical_bytes (seal_record index node previous)
        ≡ ok (dumps (seal_record index node previous))
  unfolding canonical_bytes validate_identity_value
  record_bytes index node previous = refl

  -- The seal of a node behind those before it.
  abbrev pub seal_at : ℕ → Node → String → String
  seal_at index node previous = h.hexdigest (seal_domain ++ dumps (seal_record index node previous))

  abbrev pub with_entry : SealEntry → String × List SealEntry → String × List SealEntry
  with_entry entry (digest, entries) = (digest, entry ∷ entries)

  -- One round of the loop.
  abbrev pub seal_rest : ℕ → Node → String → List Node → Result (String × List SealEntry)
  seal_rest index node previous nodes = do
    rest ← seal_nodes (suc index) (seal_at index node previous) nodes
    ok (with_entry (seal_entry index node previous (seal_at index node previous)) rest)

  pub seal_nodes-cons :
      (index : ℕ) (previous : String) (node : Node) (nodes : List Node)
      → seal_nodes index previous (node ∷ nodes)
        ≡ (validate_node node >> seal_rest index node previous nodes)
  unfolding seal_nodes
  seal_nodes-cons index previous node nodes = rw (record_bytes index node previous) refl

  -- A seal that goes on after the seal and the entries of the nodes before.
  abbrev pub continued : ℕ → List Node → String × List SealEntry → Result (String × List SealEntry)
  continued index nodes (digest, entries) = do
    (last, more) ← seal_nodes index digest nodes
    ok (last, entries ++ more)

  continued-with_entry :
      (index : ℕ) (nodes : List Node) (entry : SealEntry) (r : String × List SealEntry)
      → (continued index nodes r >>= λ x. ok (with_entry entry x))
        ≡ continued index nodes (with_entry entry r)
  continued-with_entry index nodes entry r = elim (Result-cases (seal_nodes index r.0 nodes)) [
    | inl (q, e) ↦ rw e refl
    | inr (x, e) ↦ rw e refl
  ]

  -- The index behind the nodes.
  abbrev pub next_index : ℕ → List Node → ℕ
  next_index index [] = index
  next_index index (node ∷ nodes) = next_index (suc index) nodes

  continued_empty :
      (index : ℕ) (previous : String) (nodes : List Node)
      → seal_nodes index previous nodes ≡ continued index nodes (previous, [])
  continued_empty index previous nodes = elim (Result-cases (seal_nodes index previous nodes)) [
    | inl (r, e) ↦ rw e refl
    | inr (x, e) ↦ rw e refl
  ]

  -- One more node in front of the first nodes.
  append_step :
      (index : ℕ) (previous : String) (node : Node) (first second : List Node)
      → seal_nodes (suc index) (seal_at index node previous) (first ++ second) ≡ (
          seal_nodes (suc index) (seal_at index node previous) first
          >>= continued (next_index (suc index) first) second)
      → seal_nodes index previous (node ∷ (first ++ second)) ≡ (
          seal_nodes index previous (node ∷ first)
          >>= continued (next_index (suc index) first) second)
  append_step index previous node first second rest =
      rw
        (
          seal_nodes-cons index previous node (first ++ second),
          seal_nodes-cons index previous node first,
        )
        (elim (Result-cases (validate_node node)) [
          | inr (x, bad) ↦ rw bad refl
          | inl (u, good) ↦ rw good (
              rw rest
                (elim (Result-cases (seal_nodes (suc index) (seal_at index node previous) first)) [
                  | inr (x, bad) ↦ rw bad refl
                  | inl (r, sealed) ↦ rw sealed (
                      continued-with_entry (next_index (suc index) first) second
                        (seal_entry index node previous (seal_at index node previous)) r)
                ]))
        ])

  -- Sealing nodes and then more of them is sealing all of them: the seal of the first is what the
  -- second part starts from, with the next index.
  pub seal_nodes-append :
      (index : ℕ) (previous : String) (first second : List Node)
      → seal_nodes index previous (first ++ second)
        ≡ (seal_nodes index previous first >>= continued (next_index index first) second)
  unfolding seal_nodes
  seal_nodes-append index previous [] second = continued_empty index previous second
  seal_nodes-append index previous (node ∷ first) second =
      append_step index previous node first second
        (seal_nodes-append (suc index) (seal_at index node previous) first second)
