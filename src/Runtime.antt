-- ===== src/Runtime.antt =====
-- src/pollard/runtime.py: the state of a run, and what its operations may raise.
--
-- A step function and everything else that happens while it runs (the heartbeat, other workers)
-- change the world that the run shares; only the run changes its own cursor and scopes. The callback
-- for new nodes is left out: what it raises is only warned about.
pub mod Stream
pub mod Heartbeat
pub mod Tools
pub mod Config
pub mod Cursor
pub mod Refuse
pub mod Precheck
pub mod Charge
pub mod Settle
pub mod Call
pub mod Operations
pub mod Steps
pub mod Moves
pub mod Returned
pub mod Well
pub mod Checked
pub mod Fits
pub mod ReadOnly
pub mod Numbers
use pollard.Common.{
  ℕ, String, ◌≡◌, refl, Bool, true, false, List, [], ◌∷◌, Option, none, some, if◌then◌else◌, ◌⊎◌,
  inl, inr,
}
use pollard.Common.Int.{ℤ}
use pollard.Common.Dict.{Dict}
use pollard.Errors.{Error, Result, ok, err}
use pollard.Errors
use pollard.Json.{Json, Fields}
use pollard.Hashing.{Sha256}
use pollard.Tree.{Node}
use pollard.Store.{MemoryStore, get, put}
use pollard.Arbiter.{Kv}
use pollard.Governor.{Budget}
use pollard.Replay.{ReplayMode, is_replay, replay_node_or_missing}

-- What an operation may raise. `thrown` is an exception of a step, a meter or a callback, by its type
-- and by whether its type takes attributes; `marked` is an exception that carries the mark of
-- `mark_post_dispatch_outcome_unknown`, and `outcome_unknown` the wrapper.
mutual
  pub data Raised : Type 0 where
    error : Error → Raised
    budget_exceeded : (meter refusal_id : String) → Raised
    policy_violation : (detail refusal_id : String) → Raised
    reservation_lease_lost : (reservation_id node_id detail : String) → Raised
    thrown : (type_name : String) (takes_attributes : Bool) → Raised
    marked : Raised → Raised
    outcome_unknown : Raised → Raised
    call_cleanup : Causes → Raised

  pub data Causes : Type 0 where
    no_cause : Causes
    cause : Raised → Causes → Causes

-- What `raise error from cleanup` carries: the error, and the errors of the cleanup.
pub data Outcome (A : Type 0) : Type 0 where
  returned : A → Outcome A
  raised : Raised → List Raised → Outcome A

pub Outcome-cases :
    {A : Type 0} (o : Outcome A)
    → ((a : A) × (o ≡ returned a)) ⊎ ((e : Raised) × (causes : List Raised) × (o ≡ raised e causes))
Outcome-cases (returned a) = inl (a, refl)
Outcome-cases (raised e causes) = inr (e, causes, refl)

-- `arbiter` is there when the store is a transactional one; its nodes too are then put into `store`, as
-- `MemoryStore` puts them, which notes a repeated conflict again. `outside` is what the step functions
-- work on.
pub record World (S : Type 0) : Type 0 where
  pub store : MemoryStore
  pub arbiter : Option Kv
  pub outside : S

pub record BudgetScope : Type 0 where
  pub budget : Budget
  pub anchor_id : String
  pub exhausted : List String

pub record Run (S : Type 0) : Type 0 where
  pub world : World S
  pub cursor_id : String
  pub budget_scopes : List BudgetScope
  pub avoided : Dict String ℤ

-- An operation of a run: it changes the run even when it raises.
abbrev pub Step : Type 0 → Type 0 → Type 0
Step S A = Run S → Run S × Outcome A

module _ {S A : Type 0} where
  abbrev pub return : A → Step S A
  return a r = (r, returned a)

  abbrev pub raise : Raised → Step S A
  raise e r = (r, raised e [])

  abbrev pub or_raise : Result A → Step S A
  or_raise (ok a) = return a
  or_raise (err e) = raise (error e)

  -- `try: ... except BaseException as exc: ...`
  abbrev pub attempt : Step S A → Step S (Outcome A)
  attempt m r = let (r', o) = m r in (r', returned o)

unfoldable pub after : {S A B : Type 0} → (A → Step S B) → Run S × Outcome A → Run S × Outcome B
after f (r, returned a) = f a r
after f (r, raised e causes) = (r, raised e causes)

infixl 5 ◌>>=◌ ◌>>◌
abbrev pub ◌>>=◌ : {S A B : Type 0} → Step S A → (A → Step S B) → Step S B
(m >>= f) r = after f (m r)

abbrev pub ◌>>◌ : {S B : Type 0} → Step S (Unit {0}) → Step S B → Step S B
m >> n = m >>= (λ done. n)

abbrev pub moved : {S : Type 0} → Run S → Result (MemoryStore × Node) → Run S × Outcome Node
moved r (err e) = (r, raised (error e) [])
moved r (ok (s, n)) =
    (record r { world = record r.world { store = s }; cursor_id = n.id }, returned n)

module _ ⦃h : Sha256⦄ where
  -- `Runtime._put`: the store afterwards, and the stored node.
  unfoldable pub put_stored : ReplayMode → Node → MemoryStore → Result (MemoryStore × Node)
  put_stored mode node s =
      if is_replay mode
      then Errors.◌>>=◌ (replay_node_or_missing s node) (λ n. ok (s, n))
      else Errors.◌>>=◌ (put node s) (λ s'. Errors.◌>>=◌ (get s' node.id) (λ n. ok (s', n)))

  -- `node = self._runtime._put(node); self.cursor_id = node.id`
  abbrev pub advance : {S : Type 0} → ReplayMode → Node → Step S Node
  advance mode node r = moved r (put_stored mode node r.world.store)
