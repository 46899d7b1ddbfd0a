-- ===== src/Merge/Writes.antt =====
-- The merge of src/pollard/merge.py as writes to the destination.
use mathlib.Core.Path.{subst}
use pollard.Common.{
  ◌+◌, String, ◌≡◌, refl, ap, sym, ◌∙◌, Bool, true, List, [], ◌∷◌, Option, none, some, arith,
  length, string_eq, eq_refl, Bool-cases, Option-cases, inl, inr, All,
}
use pollard.Common.Dict.{lookup, contains}
use pollard.Errors.{Result, ok, err, Result-cases, ok_injective}
use pollard.Json.{obj}
use pollard.Json.Equality.{json_eq}
use pollard.Hashing.{Sha256}
use pollard.Tree.{Node}
use pollard.Store.{MemoryStore, update_meta}
use pollard.Store.Put.{get-put}
use pollard.Store.Walk.{row-of_get}
use pollard.Store.Valid.{IsValid}
use pollard.Store.Append.{
  Write, put_node, patch_meta, write, run_writes, run_writes-IsValid, run_writes-Keeps, Keeps,
}
use pollard.Merge.{
  MergeReport, merge_nodes, merge_round, merged_existing, counted, no_counts, check_nodes,
  merge_checked, merge_prepared,
}

module _ ⦃h : Sha256⦄ where
  -- One round writes nothing, or one write of the store.
  round_writes :
      (o : Option Node) (n : Node) (dst dst' : MemoryStore)
      → merge_round o n dst ≡ ok dst'
      → (ws : List Write) × (run_writes ws dst ≡ dst')
  unfolding run_writes write merge_round
  round_writes none n dst dst' e = (put_node n ∷ [], rw e refl)
  round_writes (some old) n dst dst' e =
      elim (Bool-cases (json_eq (obj ((merged_existing old n).0)) (obj old.meta))) [
        | inl same ↦ ([], ok_injective _ _ (rw same at e))
        | inr new ↦
            let e' : update_meta old.id ((merged_existing old n).0) dst ≡ ok dst' = rw new at e in
            (patch_meta old.id ((merged_existing old n).0) ∷ [], rw e' refl)
      ]

  run_writes-append :
      (ws vs : List Write) (s t : MemoryStore)
      → run_writes ws s ≡ t
      → (us : List Write) × (run_writes us s ≡ run_writes vs t)
  unfolding run_writes
  run_writes-append [] vs s t e = (vs, ap (run_writes vs) e)
  run_writes-append (w ∷ ws) vs s t e = let (us, q) = run_writes-append ws vs _ t e in (w ∷ us, q)

  merge_writes :
      (r : MergeReport) (dst : MemoryStore) (nodes : List Node)
      → (ws : List Write) × (run_writes ws dst ≡ (merge_nodes r dst nodes).0)
  unfolding merge_nodes run_writes
  merge_writes r dst [] = ([], refl)
  merge_writes r dst (n ∷ nodes) = elim (Result-cases (merge_round (lookup n.id dst.nodes) n dst)) [
    | inr (x, e) ↦ ([], rw e refl)
    | inl (dst', e) ↦
        let (ws, first) = round_writes (lookup n.id dst.nodes) n dst dst' e in
        let (vs, rest) = merge_writes (counted (lookup n.id dst.nodes) n r) dst' nodes in
        let (us, all) = run_writes-append ws vs dst dst' first in (us, all ∙ rest ∙ (rw e refl))
  ]

  checked_writes :
      (c : Result (Unit {0})) (dst : MemoryStore) (nodes : List Node)
      → (ws : List Write) × (run_writes ws dst ≡ (merge_checked c dst nodes).0)
  unfolding run_writes
  checked_writes (err e) dst nodes = ([], refl)
  checked_writes (ok u) dst nodes = merge_writes no_counts dst nodes

  -- Merging into a valid store, whether it completes or stops at an error, leaves a valid store, in
  -- which every node of the destination is kept with its identity and its own result.
  pub merge_prepared-Keeps :
      (replay : Bool) (dst : MemoryStore) (nodes : List Node)
      → IsValid dst
      → IsValid ((merge_prepared replay dst nodes).0)
        × ((id : String) (n : Node)
            → lookup id dst.nodes ≡ some n
            → Keeps n (lookup id ((merge_prepared replay dst nodes).0).nodes))
  unfolding merge_prepared
  merge_prepared-Keeps replay dst nodes v =
      let (ws, e) = checked_writes (check_nodes replay dst nodes) dst nodes in
      (
        subst IsValid e (run_writes-IsValid ws dst v),
        λ id n found.
            subst (λ (s : MemoryStore). Keeps n (lookup id s.nodes)) e
              (run_writes-Keeps ws dst id n v found),
      )

  counted_total :
      (o : Option Node) (n : Node) (r : MergeReport)
      → (counted o n r).copied + (counted o n r).existing ≡ r.copied + r.existing + 1
  counted_total none n r = omega arith
  counted_total (some old) n r = omega arith

  contains_kept :
      (ws : List Write) (s t : MemoryStore) (id : String)
      → IsValid s
      → run_writes ws s ≡ t
      → contains id s.nodes ≡ true
      → contains id t.nodes ≡ true
  contains_kept ws s t id v reached there = elim (Option-cases (lookup id s.nodes)) [
    | inl gone ↦ absurd (cc (rw gone at there))
    | inr (n, found) ↦
        let (m, kept) = run_writes-Keeps ws s id n v found in
        rw (sym (ap (λ (x : MemoryStore). lookup id x.nodes) reached) ∙ kept) refl
  ]

  round_contains :
      (n : Node) (dst dst' : MemoryStore)
      → IsValid dst
      → merge_round (lookup n.id dst.nodes) n dst ≡ ok dst'
      → contains n.id dst'.nodes ≡ true
  unfolding merge_round
  round_contains n dst dst' v e = elim (Option-cases (lookup n.id dst.nodes)) [
    | inl fresh ↦
        let back = get-put n dst dst' n.id fresh (rw fresh at e) in
        let found = row-of_get dst' n.id n (back ∙ (rw (eq_refl n.id) refl)) in rw found refl
    | inr (old, found) ↦
        let (ws, q) = round_writes (some old) n dst dst' (rw found at e) in
        contains_kept ws dst dst' n.id v q (rw found refl)
  ]

  -- A merge loop that completes has every incoming node's id in the destination, and its report counts
  -- each incoming node once, as copied or as existing.
  pub merge_nodes_complete :
      (r r' : MergeReport) (dst dst' : MemoryStore) (nodes : List Node)
      → IsValid dst
      → merge_nodes r dst nodes ≡ (dst', ok r')
      → All (λ (n : Node). contains n.id dst'.nodes ≡ true) nodes
        × (r'.copied + r'.existing ≡ r.copied + r.existing + length nodes)
  unfolding merge_nodes
  merge_nodes_complete r r' dst dst' [] v e = (
    tt,
    subst (λ (x : MergeReport). x.copied + x.existing ≡ r.copied + r.existing + 0)
        (ok_injective r r' (ap (λ (p : MemoryStore × Result MergeReport). p.1) e)) (omega arith),
  )
  merge_nodes_complete r r' dst dst' (n ∷ nodes) v e =
      elim (Result-cases (merge_round (lookup n.id dst.nodes) n dst)) [
        | inr (x, q) ↦ absurd (cc (ap (λ (p : MemoryStore × Result MergeReport). p.1) (rw q at e)))
        | inl (dst₁, q) ↦
            let (ws, written) = round_writes (lookup n.id dst.nodes) n dst dst₁ q in
            let v₁ : IsValid dst₁ = subst IsValid written (run_writes-IsValid ws dst v) in
            let (there, count) =
              merge_nodes_complete (counted (lookup n.id dst.nodes) n r) r' dst₁ dst' nodes v₁
                (rw q at e) in
            let (us, after) = merge_writes (counted (lookup n.id dst.nodes) n r) dst₁ nodes in
            let reached : run_writes us dst₁ ≡ dst' =
              after ∙ ap (λ (p : MemoryStore × Result MergeReport). p.0) (rw q at e) in
            (
              (contains_kept us dst₁ dst' n.id v₁ reached (round_contains n dst dst₁ v q), there),
              omega (arith, count, counted_total (lookup n.id dst.nodes) n r),
            )
      ]
