-- ===== src/Store/Walk.antt =====
-- `MemoryStore.walk` of src/pollard/store.py against a description of its traversal.
use mathlib.Core.Path.{subst}
use pollard.Common.{
  ℕ, zero, suc, ◌+◌, ◌≤◌, ◌<◌, String, ◌≡◌, ◌↔◌, refl, sym, ◌∙◌, true, ◌||◌, List, [], ◌∷◌, ◌++◌,
  Option, none, some, arith, ◌==◌, string_eq, Bool-cases, inl, inr, Option-cases, eq_refl, length,
  map,
}
use pollard.Common.Dict.{Dict, lookup, contains}
use pollard.Errors.{Result, ok, err, ok_injective, Result-cases}
use pollard.Tree.{Node}
use pollard.Hashing.{Sha256}
use pollard.Store.{MemoryStore, get, children, walk_loop, member}
use pollard.Store.Valid.{IsValid}
use pollard.Store.Order.{IsOrdered, position, position-lt}
use pollard.Store.Children.{children_total, children_members, children_row}

-- The nodes that the loop yields from a stack: each node before its children, and these before the
-- rest of the stack.
pub data Walks (s : MemoryStore) : List String → List Node → Type 0 where
  done : Walks s [] []
  visit :
      {id : String} {pending ids : List String} {out : List Node} (n : Node)
      → get s id ≡ ok n
      → children s id ≡ ok ids
      → Walks s (ids ++ pending) out
      → Walks s (id ∷ pending) (n ∷ out)

pub stored_row :
    (id : String) (d : Dict String Node)
    → contains id d ≡ true
    → (n : Node) × (lookup id d ≡ some n)
stored_row id d there = elim (Option-cases (lookup id d)) [
  | inl gone ↦ absurd (cc (rw gone at there))
  | inr row ↦ row
]

pub get-of_row :
    (s : MemoryStore) (id : String) (n : Node) → lookup id s.nodes ≡ some n → get s id ≡ ok n
unfolding get
get-of_row s id n e = rw e

pub row-of_get :
    (s : MemoryStore) (id : String) (n : Node) → get s id ≡ ok n → lookup id s.nodes ≡ some n
unfolding get
row-of_get s id n e = ground arith

member-append :
    (c : String) (xs ys : List String) → member c (xs ++ ys) ≡ member c xs || member c ys
member-append c [] ys = refl
member-append c (x ∷ xs) ys = ground (arith, member-append c xs ys)

-- The loop yields `out`, one round for each node and one for the empty stack.
pub walk_loop-Walks :
    {s : MemoryStore} {pending : List String} {out : List Node} (fuel : ℕ)
    → Walks s pending out
    → length out < fuel
    → walk_loop fuel s pending ≡ some (ok out)
unfolding walk_loop
walk_loop-Walks zero w lt = absurd (omega arith)
walk_loop-Walks (suc fuel) done lt = refl
walk_loop-Walks (suc fuel) (visit n g c w) lt = ground (arith, g, c, walk_loop-Walks fuel w)

some_injective : {A : Type 0} (v w : A) → some v ≡ some w → v ≡ w
some_injective v w e = cc

-- What the loop yields, if it yields anything, is that traversal.
Walks-of_loop :
    {s : MemoryStore} (fuel : ℕ) (pending : List String) (out : List Node)
    → walk_loop fuel s pending ≡ some (ok out)
    → Walks s pending out
unfolding walk_loop
Walks-of_loop zero pending out e = absurd (cc)
Walks-of_loop {s} (suc fuel) [] out e =
    subst (Walks s []) (ok_injective [] out (some_injective _ _ e)) done
Walks-of_loop {s} (suc fuel) (id ∷ pending) out e = elim (Result-cases (get s id)) [
  | inr (x, q) ↦ absurd (cc (rw (q, walk_loop) at e))
  | inl (n, q) ↦ elim (Result-cases (children s id)) [
    | inr (x, q') ↦ absurd (cc (rw (q, q', walk_loop) at e))
    | inl (ids, q') ↦
        yielded (walk_loop fuel s (ids ++ pending)) n ids q q'
          (λ rest. Walks-of_loop fuel (ids ++ pending) rest) (rw (q, q', walk_loop) at e)
  ]
]
  where
    yielded :
        (x : Option (Result (List Node))) (n : Node) (ids : List String)
        → get s id ≡ ok n
        → children s id ≡ ok ids
        → ((rest : List Node) → x ≡ some (ok rest) → Walks s (ids ++ pending) rest)
        → (elim x as (λ y. Option (Result (List Node))) [
          | none ↦ none
          | some (err e) ↦ some (err e)
          | some (ok nodes) ↦ some (ok (n ∷ nodes))
        ])
          ≡ some (ok out)
        → Walks s (id ∷ pending) out
    yielded none n ids q q' next e' = absurd (cc)
    yielded (some (err x)) n ids q q' next e' = absurd (cc)
    yielded (some (ok rest)) n ids q q' next e' =
        subst (Walks s (id ∷ pending)) (ok_injective (n ∷ rest) out (some_injective _ _ e'))
          (visit n q q' (next rest refl))

-- Is `id` the node `r`, or below it by parent links?
pub data Descends (s : MemoryStore) (r : String) : String → Type 0 where
  self : Descends s r r
  below :
      {p : String} (c : String) (n : Node)
      → Descends s r p
      → lookup c s.nodes ≡ some n
      → n.parent ≡ some p
      → Descends s r c

abbrev pub ids_out : List Node → List String
ids_out = map (λ (n : Node). n.id)

-- What can be visited with any rest of the stack.
abbrev Visits : MemoryStore → String → Type 0
Visits s id =
    (pending : List String) (out : List Node)
    → Walks s pending out
    → (out' : List Node) × Walks s (id ∷ pending) out'

visit_all :
    (s : MemoryStore) (ids : List String)
    → ((c : String) → member c ids ≡ true → Visits s c)
    → (pending : List String) (out : List Node) → Walks s pending out
    → (out' : List Node) × Walks s (ids ++ pending) out'
visit_all s [] each pending out w = (out, w)
visit_all s (id ∷ ids) each pending out w =
    let (out', w') = visit_all s ids (λ c m. each c (ground arith)) pending out w in
    each id (ground (arith, eq_refl id)) (ids ++ pending) out' w'

module _ ⦃h : Sha256⦄ (s : MemoryStore) (v : IsValid s) where
  -- `k` bounds how many rows stand behind the id's own.
  Visits-stored :
      IsOrdered s
      → (k : ℕ) (id : String) → contains id s.nodes ≡ true
      → length s.nodes ≤ k + position id s.nodes
      → Visits s id
  Visits-stored o zero id there bound pending out w =
      absurd (omega (arith, position-lt id s.nodes there))
  Visits-stored o (suc k) id there bound pending out w =
      let (n, e) = stored_row id s.nodes there in
      let (ids, q) = children_total s v id in
      let each : (c : String) → member c ids ≡ true → Visits s c = λ c m.
        let (r, found, par) = children_row s v id c q m in
        Visits-stored o k c (rw found) (omega (arith, o.before c id r found par)) in
      let (out', w') = visit_all s ids each pending out w in
      (n ∷ out', visit n (get-of_row s id n e) q w')

  -- In a valid store whose rows are in order, the loop of `walk` ends: from any stored id there is a
  -- result that every fuel above its length yields.
  pub walk_total :
      IsOrdered s
      → (root : String) → contains root s.nodes ≡ true
      → (out : List Node) × Walks s (root ∷ []) out
        × ((fuel : ℕ) → length out < fuel → walk_loop fuel s (root ∷ []) ≡ some (ok out))
  walk_total o root there =
      let (out, w) = Visits-stored o (length s.nodes) root there (omega arith) [] [] done in
      (out, w, λ fuel lt. walk_loop-Walks fuel w lt)

  -- What is below the stack is what is yielded.
  Walks-sound :
      {pending : List String} {out : List Node} (r : String)
      → Walks s pending out
      → ((c : String) → member c pending ≡ true → Descends s r c)
      → (c : String) → member c (ids_out out) ≡ true
      → Descends s r c
  Walks-sound r done top c m = absurd (cc)
  Walks-sound r (visit {id} {pending} {ids} n g q w) top c m =
      let own : n.id ≡ id = (v.rows id n (row-of_get s id n g)).own_id in
      let here : Descends s r id = top id (ground (arith, eq_refl id)) in
      let lower : (d : String) → member d (ids ++ pending) ≡ true → Descends s r d = λ d m'.
        elim (Bool-cases (member d ids)) [
          | inl child ↦
              let (k, found, par) = children_row s v id d q child in below d k here found par
          | inr rest ↦ top d (ground (arith, member-append d ids pending))
        ] in
      elim (Bool-cases (n.id == c)) [
        | inl same ↦ subst (Descends s r) (sym own ∙ (string_eq.beq_iff n.id c).0 same) here
        | inr other ↦ Walks-sound r w lower c (ground arith)
      ]

  Walks-pending :
      {pending : List String} {out : List Node}
      → Walks s pending out
      → (c : String) → member c pending ≡ true
      → member c (ids_out out) ≡ true
  Walks-pending done c m = m
  Walks-pending (visit {id} {pending} {ids} n g q w) c m = ground (
    arith,
    (v.rows id n (row-of_get s id n g)).own_id,
    member-append c ids pending,
    Walks-pending w c,
  )

  Walks-closed :
      {pending : List String} {out : List Node} (p c : String) (n : Node)
      → Walks s pending out
      → member p (ids_out out) ≡ true
      → lookup c s.nodes ≡ some n
      → n.parent ≡ some p
      → member c (ids_out out) ≡ true
  Walks-closed p c n done m e par = absurd (cc)
  Walks-closed p c n (visit {id} {pending} {ids} k g q w) m e par = elim (Bool-cases (k.id == p)) [
    | inl same ↦ ground (
      arith,
      (v.rows id k (row-of_get s id k g)).own_id,
      string_eq.beq_iff k.id p,
      string_eq.beq_iff p p,
      children_members s v id c q,
      member-append c ids pending,
      Walks-pending w c,
    )
    | inr other ↦ ground (arith, Walks-closed p c n w)
  ]

  Walks-complete :
      {out : List Node} (root c : String)
      → Walks s (root ∷ []) out
      → Descends s root c
      → member c (ids_out out) ≡ true
  Walks-complete root c w self = Walks-pending w root (ground (arith, eq_refl root))
  Walks-complete root c w (below {p} d n up e par) =
      Walks-closed p d n w (Walks-complete root p w up) e par

  Walks-Descends :
      (root : String) (out : List Node) (c : String)
      → Walks s (root ∷ []) out
      → (member c (ids_out out) ≡ true) ↔ Descends s root c
  Walks-Descends root out c w = (
    Walks-sound root w (λ d m. subst (Descends s root) (only d m) self) c,
    Walks-complete root c w,
  )
    where
      only : (d : String) → member d (root ∷ []) ≡ true → root ≡ d
      only d m = (string_eq.beq_iff root d).0 (ground arith)

  -- What the loop of `walk` yields from a root, whatever the fuel, is the nodes of its subtree and no
  -- others.
  pub walk_subtree :
      (fuel : ℕ) (root : String) (out : List Node) (c : String)
      → walk_loop fuel s (root ∷ []) ≡ some (ok out)
      → (member c (ids_out out) ≡ true) ↔ Descends s root c
  walk_subtree fuel root out c e = Walks-Descends root out c (Walks-of_loop fuel (root ∷ []) out e)
