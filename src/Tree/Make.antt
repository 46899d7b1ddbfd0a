-- ===== src/Tree/Make.antt =====
-- The nodes that `Node.make` of src/pollard/tree.py builds.
use mathlib.Core.Path.{subst}
use pollard.Common.{
  ℕ, String, ◌≡◌, refl, ap, sym, ◌∙◌, Bool, true, false, not, Option, none, some, if◌then◌else◌,
}
use pollard.Errors.{Error, ok, value_error, raise_if, >>=-eq-ok, ok_injective}
use pollard.Json.{Json, null, bool, int, float, str, arr, obj, Fields, end, is_null}
use pollard.Json.Text.{Text}
use pollard.Json.Canonical.{canonical_bytes}
use pollard.Hashing.{Sha256, node_id, result_text_and_digest}
use pollard.Tree.{
  NodeKind, kind_text, Node, is_hex64, parent_fits, digest_fits, fill_text, fill_digest, post_init,
  make,
}

raise_unless : (c : Bool) (e : Error) → raise_if (not c) e ≡ ok tt → c ≡ true
raise_unless true e h = refl
raise_unless false e h = absurd (cc)

module _ ⦃h : Sha256⦄ where
  post_init-parts :
      (n m : Node)
      → post_init n ≡ ok m
      → (is_hex64 n.id ≡ true)
        × (parent_fits n.kind n.parent ≡ true)
        × ((bytes : Text) × (canonical_bytes (obj n.payload) ≡ ok bytes))
        × (m ≡ fill_digest (fill_text n))
  unfolding post_init
  post_init-parts n m e =
      let (_, own, e₁) = >>=-eq-ok (raise_if (not (is_hex64 n.id)) value_error) _ e in
      let (_, fits, e₂) =
        >>=-eq-ok (raise_if (not (parent_fits n.kind n.parent)) value_error) _ e₁ in
      let (bytes, q, e₃) = >>=-eq-ok (canonical_bytes (obj n.payload)) _ e₂ in
      let (_, _, e₄) =
        >>=-eq-ok
          (raise_if (not (digest_fits (fill_digest (fill_text n)).result_digest)) value_error) _
          e₃ in
      (
        raise_unless (is_hex64 n.id) value_error own,
        raise_unless (parent_fits n.kind n.parent) value_error fits,
        (bytes, q),
        sym (ok_injective _ _ e₄),
      )

  module _ (kind : NodeKind) (parent : Option String) (payload : Fields) (attempt : ℕ) where
    -- A node with a result that is not null, and one without a result.
    abbrev pub with_result : String → Json → Fields → Node
    with_result id result meta = record {
      id = id;
      parent = parent;
      kind = kind;
      attempt = attempt;
      payload = payload;
      result = result;
      result_digest = some ((result_text_and_digest result).1);
      meta = meta;
      result_text = some ((result_text_and_digest result).0);
    }

    abbrev pub without_result : String → Fields → Node
    without_result id meta = record {
      id = id;
      parent = parent;
      kind = kind;
      attempt = attempt;
      payload = payload;
      result = null;
      result_digest = none;
      meta = meta;
      result_text = none;
    }

    text_filled :
        (id : String) (result : Json) (meta : Fields)
        → fill_text (with_result id result meta) ≡ with_result id result meta
    unfolding fill_text
    text_filled id null meta = refl
    text_filled id (bool b) meta = refl
    text_filled id (int n) meta = refl
    text_filled id (float t) meta = refl
    text_filled id (str t) meta = refl
    text_filled id (arr xs) meta = refl
    text_filled id (obj fs) meta = refl

    filled_in :
        (id : String) (result : Json) (meta : Fields)
        → fill_digest (fill_text (with_result id result meta)) ≡ with_result id result meta
    unfolding fill_digest
    filled_in id result meta = ap fill_digest (text_filled id result meta)

    -- What `make` hands to the constructor, by whether the result is null.
    abbrev handed : Bool → String → Json → Fields → Node
    handed no_result id result meta = record {
      id = id;
      parent = parent;
      kind = kind;
      attempt = attempt;
      payload = payload;
      result = result;
      result_digest = if no_result then none else some ((result_text_and_digest result).1);
      meta = meta;
      result_text = if no_result then none else some ((result_text_and_digest result).0);
    }

    candidate_built :
        (id : String) (bytes : Text)
        → is_hex64 id ≡ true
        → parent_fits kind parent ≡ true
        → canonical_bytes (obj payload) ≡ ok bytes
        → post_init (without_result id end) ≡ ok (without_result id end)
    unfolding post_init fill_digest fill_text
    candidate_built id bytes own fits q = rw (own, fits, q) refl

    candidate_of_built :
        (id : String) (result : Json) (meta : Fields) (n : Node)
        → is_null result ≡ false
        → node_id (kind_text kind) parent attempt payload ≡ ok id
        → post_init (handed (is_null result) id result meta) ≡ ok n
        → (n ≡ with_result id result meta)
          × (make kind parent payload attempt null end ≡ ok (without_result id end))
    unfolding make
    candidate_of_built id result meta n live named e =
        let built : post_init (with_result id result meta) ≡ ok n =
          subst (λ (b : Bool). post_init (handed b id result meta) ≡ ok n) live e in
        let (own, fits, (bytes, q), filled) =
          post_init-parts (with_result id result meta) n built in
        (filled ∙ filled_in id result meta, rw named (candidate_built id bytes own fits q))

    -- The identity of a node does not depend on its result: where `make` builds a node with a result,
    -- it builds the one without, under the same id.
    pub make-candidate :
        (result : Json) (meta : Fields) (n : Node)
        → is_null result ≡ false
        → make kind parent payload attempt result meta ≡ ok n
        → (id : String) × (n ≡ with_result id result meta)
          × (make kind parent payload attempt null end ≡ ok (without_result id end))
    unfolding make
    make-candidate result meta n live e =
        let (id, named, e₁) = >>=-eq-ok (node_id (kind_text kind) parent attempt payload) _ e in
        let (built, candidate) = candidate_of_built id result meta n live named e₁ in
        (id, built, candidate)
