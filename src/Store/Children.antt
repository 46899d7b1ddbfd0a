-- ===== src/Store/Children.antt =====
-- `MemoryStore.children` of src/pollard/store.py against the rows.
use pollard.Common.{
  String, All, false, ◌≡◌, refl, ap, sym, ◌∙◌, true, ◌||◌, List, [], ◌∷◌, Option, none, some, arith,
  ◌==◌, string_eq, Bool-cases, inl, inr, Option-cases, eq_refl, map,
}
use pollard.Common.Dict.{Dict, lookup}
use pollard.Common.Sort.{insert_sorted, sorted}
use pollard.Common.Sort
use pollard.Json.Text.{Text, codes, text_before}
use mathlib.Core.Path.{subst}
use pollard.Errors.{ok, >>=-eq-ok, ok_injective}
use pollard.Hashing.{Sha256}
use pollard.Tree.{Node, kind_text}
use pollard.Store.{
  MemoryStore, children, children_of, child_keys, member, or_key_error, pair_before, optional_eq,
}
use pollard.Store.Valid.{IsValid, is_child}

abbrev ids_of : List (String × String) → List String
ids_of = map (λ (k : String × String). k.1)

child_keys-ids :
    (nodes : Dict String Node) (ids : List String) {ks : List (String × String)}
    → child_keys nodes ids ≡ ok ks
    → ids_of ks ≡ ids
unfolding child_keys
child_keys-ids nodes [] e = ap ids_of (sym (ok_injective _ _ e))
child_keys-ids nodes (id ∷ ids) e =
    let (n, _, e₁) = >>=-eq-ok (or_key_error id (lookup id nodes)) _ e in
    let (rest, q, e₂) = >>=-eq-ok (child_keys nodes ids) _ e₁ in
    ap ids_of (sym (ok_injective _ _ e₂)) ∙ ap (λ l. id ∷ l) (child_keys-ids nodes ids q)

module _ (c : String) where
  member-insert_sorted :
      (k : String × String) (ks : List (String × String))
      → member c (ids_of (insert_sorted pair_before k ks)) ≡ (k.1 == c) || member c (ids_of ks)
  member-insert_sorted k [] = refl
  member-insert_sorted k (j ∷ ks) = elim (Bool-cases (pair_before j k)) [
    | inl after ↦ rw after (ground (arith, member-insert_sorted k ks))
    | inr here ↦ rw here refl
  ]

  member-sorted :
      (ks : List (String × String))
      → member c (ids_of (sorted pair_before ks)) ≡ member c (ids_of ks)
  member-sorted [] = refl
  member-sorted (k ∷ ks) =
      ground (arith, member-insert_sorted k (sorted pair_before ks), member-sorted ks)

  member-children :
      (s : MemoryStore) (id : String) {ids : List String}
      → children s id ≡ ok ids
      → member c ids ≡ member c (children_of id s)
  unfolding children
  member-children s id e =
      let (ks, q, r) = >>=-eq-ok (child_keys s.nodes (children_of id s)) _ e in
      ap (member c) (sym (ok_injective _ _ r))
      ∙ member-sorted ks
      ∙ ap (member c) (child_keys-ids s.nodes (children_of id s) q)

child_keys_total :
    (nodes : Dict String Node) (ids : List String)
    → ((c : String) → member c ids ≡ true → (n : Node) × (lookup c nodes ≡ some n))
    → (ks : List (String × String)) × (child_keys nodes ids ≡ ok ks)
unfolding child_keys
child_keys_total nodes [] h = ([], refl)
child_keys_total nodes (id ∷ ids) h =
    let (n, e) = h id (ground (arith, eq_refl id)) in
    let (ks, q) = child_keys_total nodes ids (λ c m. h c (ground arith)) in
    ((kind_text n.kind, id) ∷ ks, rw (e, q))

optional_eq-eq : (o : Option String) (p : String) → optional_eq o (some p) ≡ true → o ≡ some p
optional_eq-eq none p h = absurd (cc)
optional_eq-eq (some q) p h = ap some ((string_eq.beq_iff q p).0 h)

-- In a valid store, what a child list holds is stored, with that parent.
module _ ⦃h : Sha256⦄ (s : MemoryStore) (v : IsValid s) where
  child_row :
      (id c : String)
      → member c (children_of id s) ≡ true
      → (n : Node) × (lookup c s.nodes ≡ some n) × (n.parent ≡ some id)
  child_row id c m = elim (Option-cases (lookup c s.nodes)) [
    | inl gone ↦ absurd (cc (v.indexed id c, gone, m))
    | inr (n, e) ↦
        (n, e, optional_eq-eq n.parent id (sym (ap (is_child id) e) ∙ sym (v.indexed id c) ∙ m))
  ]

  pub children_total : (id : String) → (ids : List String) × (children s id ≡ ok ids)
  unfolding children
  children_total id =
      let (ks, q) =
        child_keys_total s.nodes (children_of id s)
          (λ c m. let (n, e, _) = child_row id c m in (n, e)) in
      (ids_of (sorted pair_before ks), rw q)

  pub children_members :
      (id c : String) {ids : List String}
      → children s id ≡ ok ids
      → member c ids ≡ is_child id (lookup c s.nodes)
  children_members id c e = member-children c s id e ∙ v.indexed id c

  pub children_row :
      (id c : String) {ids : List String}
      → children s id ≡ ok ids
      → member c ids ≡ true
      → (n : Node) × (lookup c s.nodes ≡ some n) × (n.parent ≡ some id)
  children_row id c e m = child_row id c (sym (member-children c s id e) ∙ m)

-- The keys by which the children are sorted, in order: by the text of the kind, and then by the id.
pub record IsListing (s : MemoryStore) (id : String) (ids : List String) : Type 0 where
  pub keys : List (String × String)
  pub listed : ids ≡ ids_of keys
  pub keyed :
      All
        (λ (k : String × String).
          (n : Node) × (lookup k.1 s.nodes ≡ some n) × (kind_text n.kind ≡ k.0))
        keys
  pub in_order : Sort.InOrder pair_before keys
  pub just : (c : String) → member c ids ≡ is_child id (lookup c s.nodes)

text_before-asymmetric : (s t : Text) → text_before s t ≡ true → text_before t s ≡ false
text_before-asymmetric [] [] h = refl
text_before-asymmetric [] (b ∷ t) h = refl
text_before-asymmetric (a ∷ s) [] h = absurd (cc)
text_before-asymmetric (a ∷ s) (b ∷ t) h = ground (arith, text_before-asymmetric s t)

pair_before-asymmetric : (p q : String × String) → pair_before p q ≡ true → pair_before q p ≡ false
pair_before-asymmetric p q h = ground (
  arith,
  text_before-asymmetric (codes p.0) (codes q.0),
  text_before-asymmetric (codes p.1) (codes q.1),
)

child_keys-keyed :
    (nodes : Dict String Node) (ids : List String) {ks : List (String × String)}
    → child_keys nodes ids ≡ ok ks
    → All
        (λ (k : String × String).
          (n : Node) × (lookup k.1 nodes ≡ some n) × (kind_text n.kind ≡ k.0))
        ks
unfolding child_keys
child_keys-keyed nodes [] e = subst (All _) (ok_injective _ _ e) tt
child_keys-keyed nodes (id ∷ ids) e =
    let (n, found, e₁) = >>=-eq-ok (or_key_error id (lookup id nodes)) _ e in
    let (rest, q, e₂) = >>=-eq-ok (child_keys nodes ids) _ e₁ in
    subst (All _) (ok_injective _ _ e₂) ((n, row_found n found, refl), child_keys-keyed nodes ids q)
  where
    row_found : (n : Node) → or_key_error id (lookup id nodes) ≡ ok n → lookup id nodes ≡ some n
    row_found n q = ground arith

module _ ⦃h : Sha256⦄ (s : MemoryStore) (v : IsValid s) where
  -- In a valid store `children` succeeds for every id, with just the ids of the stored nodes whose
  -- parent it is, sorted by the text of the node's kind and then by id.
  pub children_exact :
      (id : String) → (ids : List String) × (children s id ≡ ok ids) × IsListing s id ids
  unfolding children
  children_exact id =
      let (ks, q) =
        child_keys_total s.nodes (children_of id s)
          (λ c m. let (n, e, _) = child_row s v id c m in (n, e)) in
      let found : children s id ≡ ok (ids_of (sorted pair_before ks)) = rw q refl in
      (
        ids_of (sorted pair_before ks),
        found,
        record {
          keys = sorted pair_before ks;
          listed = refl;
          keyed = Sort.All-sorted pair_before _ ks (child_keys-keyed s.nodes (children_of id s) q);
          in_order = Sort.sorted-InOrder pair_before pair_before-asymmetric ks;
          just = λ c. children_members s v id c found;
        },
      )
