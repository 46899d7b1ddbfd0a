-- ===== src/Transactional/Repeat.antt =====
-- A put of src/pollard/stores/_transactional.py that is repeated, as after a lost answer.
use mathlib.Core.Path.{subst}
use pollard.Common.{
  String, ◌≡◌, refl, sym, true, false, not, ◌||◌, Option, none, some, arith, ◌==◌, string_eq,
  eq_refl, Bool-cases, inl, inr, ◌⊎◌, Option-cases, is_some,
}
use pollard.Common.Dict.{lookup, insert, lookup-insert}
use pollard.Errors.{ok, >>=-eq-ok, ok_injective}
use pollard.Json.{
  Json, Items, nil, cons, Fields, end, field, obj, arr, get_field, set_field, append_item,
}
use pollard.Json.Equality.{json_eq, json_eq_refl, Distinct}
use pollard.Hashing.{Sha256}
use pollard.Tree.{Node}
use pollard.Store.{
  same_identity, validate_for_put, parent_check, conflict_items, conflict_entry, optional_text_eq,
  optional_str,
}
use pollard.Store.Put.{same_identity_refl, optional_text_eq_refl}
use pollard.Transactional.{Bucket, item_in, tx_existing, tx_put_at, tx_put}

get_field-set_field :
    (k : String) (v : Json) (fs : Fields) → get_field k (set_field k v fs) ≡ some v
get_field-set_field k v end = rw (eq_refl k) refl
get_field-set_field k v (field j w fs) = elim (Bool-cases (j == k)) [
  | inl same ↦ rw same (rw same refl)
  | inr other ↦ rw other (rw other (get_field-set_field k v fs))
]

item_in-append_item :
    (v : Json) (xs : Items) → json_eq v v ≡ true → item_in v (append_item xs v) ≡ true
unfolding item_in
item_in-append_item v nil same = rw same refl
item_in-append_item v (cons x xs) same = ground (arith, item_in-append_item v xs same)

entry-Distinct : (node : Node) → Distinct node.result → Distinct (conflict_entry node)
unfolding Distinct
entry-Distinct node d = (refl, optional_Distinct node.result_digest, (refl, d, tt))
  where
    optional_Distinct : (o : Option String) → Distinct (optional_str o)
    optional_Distinct none = tt
    optional_Distinct (some s) = tt

parent_check-insert :
    (o : Option String) (key : String) (n : Node) (b : Bucket)
    → parent_check o b ≡ ok tt
    → parent_check o (insert key n b) ≡ ok tt
parent_check-insert none key n b e = refl
parent_check-insert (some p) key n b e = ground (arith, lookup-insert key p n b)

-- What a put on an occupied id has done: nothing, or it has noted a new conflict.
abbrev pub noted : Items → Node → Node → Node
noted prior old node = record old {
  meta = set_field "result_conflicts" (arr (append_item prior (conflict_entry node))) old.meta;
}

pub tx_existing-eq-ok :
    (old node : Node) (b b' : Bucket)
    → tx_existing old node b ≡ ok b'
    → (b' ≡ b)
      ⊎ ((prior : Items) × (same_identity old node ≡ true)
          × ((not (is_some node.result_text) || optional_text_eq node.result_text old.result_text)
              ≡ false)
          × (b' ≡ insert node.id (noted prior old node) b))
unfolding tx_existing
tx_existing-eq-ok old node b b' e = elim (Bool-cases (same_identity old node)) [
  | inr other ↦ absurd (cc (rw other at e))
  | inl same ↦
      elim (Bool-cases
        (not (is_some node.result_text) || optional_text_eq node.result_text old.result_text)) [
          | inl known ↦ inl (sym (ok_injective _ _ (rw known at (rw same at e))))
          | inr differs ↦
              let (prior, _, e₁) =
                >>=-eq-ok (conflict_items (get_field "result_conflicts" old.meta)) _
                  (rw differs at (rw same at e)) in
              elim (Bool-cases (item_in (conflict_entry node) prior)) [
                | inl there ↦ inl (sym (ok_injective _ _ (rw there at e₁)))
                | inr new ↦ inr (prior, same, differs, sym (ok_injective _ _ (rw new at e₁)))
              ]
        ]
]

noted_identity :
    (prior : Items) (old node : Node)
    → same_identity old node ≡ true
    → same_identity (noted prior old node) node ≡ true
unfolding same_identity
noted_identity prior old node same = same

noted_again :
    (prior : Items) (old node : Node) (b : Bucket)
    → Distinct node.result
    → same_identity old node ≡ true
    → (not (is_some node.result_text) || optional_text_eq node.result_text old.result_text) ≡ false
    → tx_existing (noted prior old node) node b ≡ ok b
unfolding tx_existing
noted_again prior old node b d same differs = rw (noted_identity prior old node same) (
    rw differs (
      rw
        (get_field-set_field "result_conflicts" (arr (append_item prior (conflict_entry node)))
          old.meta)
        (rw
          (item_in-append_item (conflict_entry node) prior
            (json_eq_refl (conflict_entry node) (entry-Distinct node d)))
          refl)))

known_again :
    (node : Node) (b : Bucket) → Distinct (obj node.payload) → tx_existing node node b ≡ ok b
unfolding tx_existing
known_again node b d =
    ground (arith, same_identity_refl node d, optional_text_eq_refl node.result_text)

lookup-inserted_row : (key : String) (n : Node) (b : Bucket) → lookup key (insert key n b) ≡ some n
lookup-inserted_row key n b = rw (lookup-insert key key n b) (rw (eq_refl key) refl)

module _ ⦃h : Sha256⦄ where
  pub tx_put-parts :
      (node : Node) (b b' : Bucket)
      → tx_put node b ≡ ok b'
      → (validate_for_put node ≡ ok tt)
        × (parent_check node.parent b ≡ ok tt)
        × (tx_put_at (lookup node.id b) node b ≡ ok b')
  unfolding tx_put
  tx_put-parts node b b' e =
      let (_, good, e₁) = >>=-eq-ok (validate_for_put node) _ e in
      let (_, known, e₂) = >>=-eq-ok (parent_check node.parent b) _ e₁ in (good, known, e₂)

  tx_put-of_row :
      (node row : Node) (b : Bucket)
      → validate_for_put node ≡ ok tt
      → parent_check node.parent b ≡ ok tt
      → tx_existing row node (insert node.id row b) ≡ ok (insert node.id row b)
      → tx_put node (insert node.id row b) ≡ ok (insert node.id row b)
  unfolding tx_put
  tx_put-of_row node row b good known again =
      rw
        (
          good,
          parent_check-insert node.parent node.id row b known,
          lookup-inserted_row node.id row b,
        )
        again

  -- A put that succeeded is repeated without an effect, also where it noted a second result: payload
  -- and result are Python values, whose dictionaries have no key twice.
  pub tx_put-tx_put :
      (node : Node) (b b' : Bucket)
      → Distinct (obj node.payload)
      → Distinct node.result
      → tx_put node b ≡ ok b'
      → tx_put node b' ≡ ok b'
  tx_put-tx_put node b b' dp dr e =
      let (good, known, e₂) = tx_put-parts node b b' e in
      elim (Option-cases (lookup node.id b)) [
        | inl fresh ↦
            rw (sym (ok_injective _ _ (rw fresh at e₂)))
              (tx_put-of_row node node b good known (known_again node (insert node.id node b) dp))
        | inr (old, found) ↦ elim (tx_existing-eq-ok old node b b' (rw found at e₂)) [
          | inl same ↦ subst (λ (x : Bucket). tx_put node x ≡ ok x) (sym same) (rw same at e)
          | inr (prior, same, differs, written) ↦ rw written (
              tx_put-of_row node (noted prior old node) b good known (
                noted_again prior old node (insert node.id (noted prior old node) b) dr same
                  differs))
        ]
      ]
