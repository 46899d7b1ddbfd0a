-- ===== src/Store/Put.antt =====
-- `MemoryStore.put` of src/pollard/store.py: a new id, a repeated node and a second result.
use pollard.Common.{
  String, ◌≡◌, refl, ap, sym, Bool, true, false, not, ◌&&◌, Option, none, some, arith, ◌==◌,
  string_eq, nat_eq, if◌then◌else◌, inl, inr, ◌⊎◌, is_some, eq_refl,
}
use pollard.Common.Dict.{lookup, insert, lookup-insert}
use pollard.Errors.{Result, ok, >>=-eq-ok, ok_injective}
use pollard.Json.{Items, arr, obj, append_item, set_field, get_field}
use pollard.Json.Text.{Text}
use pollard.Json.Equality.{json_eq_refl, Distinct, text_beq_refl}
use pollard.Hashing.{Sha256}
use pollard.Tree.{Node, kind_text}
use pollard.Store.{
  MemoryStore, put, put_at, get, store_new, same_identity, optional_eq, optional_text_eq,
  handle_existing, note_conflict, validate_for_put, parent_check, conflict_items, conflict_entry,
}
use pollard.Store.Rows.{lookup-store_new}
use pollard.Store.Valid.{IsValid}

optional_eq_refl : (o : Option String) → optional_eq o o ≡ true
optional_eq_refl none = refl
optional_eq_refl (some s) = eq_refl s

pub optional_text_eq_refl : (o : Option Text) → optional_text_eq o o ≡ true
optional_text_eq_refl none = refl
optional_text_eq_refl (some t) = text_beq_refl t

pub same_identity_refl : (n : Node) → Distinct (obj n.payload) → same_identity n n ≡ true
unfolding same_identity
same_identity_refl n d = ground (
  arith,
  optional_eq_refl n.parent,
  eq_refl (kind_text n.kind),
  eq_refl n.attempt,
  json_eq_refl (obj n.payload) d,
)

-- A different result of the same call is noted behind those noted before.
abbrev pub with_conflict : Items → Node → Node → Node
with_conflict prior incoming old = record old {
  meta = set_field "result_conflicts" (arr (append_item prior (conflict_entry incoming))) old.meta;
}

-- Does the incoming node bring a result other than the stored one?
abbrev pub differs : Node → Node → Bool
differs old incoming =
    is_some incoming.result_text && not (optional_text_eq incoming.result_text old.result_text)

module _ ⦃h : Sha256⦄ where
  pub put-parts :
      (node : Node) (s s' : MemoryStore)
      → put node s ≡ ok s'
      → (validate_for_put node ≡ ok tt)
        × (parent_check node.parent s.nodes ≡ ok tt)
        × (put_at (lookup node.id s.nodes) node s ≡ ok s')
  unfolding put
  put-parts node s s' e =
      let (_, good, e₁) = >>=-eq-ok (validate_for_put node) _ e in
      let (_, known, e₂) = >>=-eq-ok (parent_check node.parent s.nodes) _ e₁ in (good, known, e₂)

  pub put-of_parts :
      (node : Node) (s : MemoryStore) {r : Result MemoryStore}
      → validate_for_put node ≡ ok tt
      → parent_check node.parent s.nodes ≡ ok tt
      → put_at (lookup node.id s.nodes) node s ≡ r
      → put node s ≡ r
  unfolding put
  put-of_parts node s good known e = rw (good, known) e

  put_new :
      (node : Node) (s s' : MemoryStore)
      → lookup node.id s.nodes ≡ none
      → put node s ≡ ok s'
      → s' ≡ store_new node s
  put_new node s s' fresh e = sym (ok_injective _ _ (rw fresh at ((put-parts node s s' e).2)))

  -- A node that is put under a new id is what `get` returns for it, and every other id reads as
  -- before.
  pub get-put :
      (node : Node) (s s' : MemoryStore) (j : String)
      → lookup node.id s.nodes ≡ none
      → put node s ≡ ok s'
      → get s' j ≡ (if node.id == j then ok node else get s j)
  unfolding get
  get-put node s s' j fresh e =
      rw (put_new node s s' fresh e) (ground (arith, lookup-store_new node s j))

  pub note_conflict-eq-ok :
      (old incoming : Node) (s s' : MemoryStore)
      → note_conflict old incoming s ≡ ok s'
      → (prior : Items) × (conflict_items (get_field "result_conflicts" old.meta) ≡ ok prior)
        × (s'.nodes ≡ insert old.id (with_conflict prior incoming old) s.nodes)
  unfolding note_conflict
  note_conflict-eq-ok old incoming s s' e =
      let (prior, q, r) = >>=-eq-ok (conflict_items (get_field "result_conflicts" old.meta)) _ e in
      (prior, q, ap (λ (t : MemoryStore). t.nodes) (sym (ok_injective _ _ r)))

  pub handle_existing-eq-ok :
      (old incoming : Node) (s s' : MemoryStore)
      → handle_existing old incoming s ≡ ok s'
      → (same_identity old incoming ≡ true)
        × ((differs old incoming ≡ false) × (s' ≡ s)
            ⊎ (differs old incoming ≡ true) × (note_conflict old incoming s ≡ ok s'))
  unfolding handle_existing
  handle_existing-eq-ok old incoming s s' e = ground arith

  -- A put on an occupied id, in a valid store, succeeds only for the same identity. It changes
  -- nothing unless the node brings a different result; then the first result stays, and the new
  -- one is appended to the conflicts in the metadata.
  pub put_occupied :
      (node old : Node) (s s' : MemoryStore)
      → IsValid s
      → lookup node.id s.nodes ≡ some old
      → put node s ≡ ok s'
      → (same_identity old node ≡ true)
        × ((differs old node ≡ false) × (s' ≡ s)
            ⊎ (differs old node ≡ true)
              × ((prior : Items) × (conflict_items (get_field "result_conflicts" old.meta)
                    ≡ ok prior)
                  × (get s' node.id ≡ ok (with_conflict prior node old))))
  unfolding get
  put_occupied node old s s' v found e =
      let (same, rest) =
        handle_existing-eq-ok old node s s' (rw found at ((put-parts node s s' e).2)) in
      (
        same,
        elim rest [
          | inl kept ↦ inl kept
          | inr (new, noted) ↦
              let (prior, q, rows) = note_conflict-eq-ok old node s s' noted in
              inr (
                new,
                (
                  prior,
                  q,
                  ground (
                    arith,
                    lookup-insert old.id node.id (with_conflict prior node old) s.nodes,
                    (v.rows node.id old found).own_id,
                    string_eq.beq_iff old.id node.id,
                  ),
                ),
              )
        ],
      )
