-- ===== src/Runtime/Tools/Permits.antt =====
-- Which tools `Run._check_tool_authority` of src/pollard/runtime.py lets through.
use pollard.Common.{
  ℕ, String, ◌≡◌, refl, ap, sym, ◌∙◌, Bool, true, false, not, ◌&&◌, ◌||◌, List, [], ◌∷◌, Option,
  none, some, is_some, string_eq, keep_if, Bool-cases, inl, inr, ◌==◌, ◌⊎◌, arith,
}
use pollard.Errors.{ok, err, Result}
use pollard.Json.{Fields}
use pollard.Hashing.{Sha256}
use pollard.Tree.{Node}
use pollard.Store.{MemoryStore, member}
use pollard.Governor.Charges.{Amounts}
use pollard.Runtime.{Outcome, returned, raised, Run, Step, after, or_raise, moved}
use pollard.Runtime.Config.{Config, Moment}
use pollard.Runtime.Cursor.{validate_agent_cursor}
use pollard.Runtime.Refuse.{refuse_policy}
use pollard.Runtime.Tools.{
  Agent, Authority, narrowed, allowed_tools_of, check_allowed, check_tool_authority, call_given,
  unfenced_tool_call,
}
use pollard.Runtime.Call.{StepFn}

-- A list of tools, if there is one, has the tool.
abbrev pub admits : Option (List String) → String → Bool
admits none name = true
admits (some tools) name = member name tools

abbrev pub agent_tools : Option Agent → Option (List String)
agent_tools none = none
agent_tools (some agent) = agent.allowed_tools

-- The team and the agent admit the tool, and where one of them has a list there is a registry.
abbrev pub permits : Authority → String → Bool
permits t name =
    admits t.tool_ceiling name
    && admits (agent_tools t.agent_identity) name
    && (is_some t.registry_digest
        || not (is_some t.tool_ceiling || is_some (agent_tools t.agent_identity)))

and_false : (b : Bool) → (b && false) ≡ false
and_false true = refl
and_false false = refl

member-keep_if :
    (x : String) (p : String → Bool) (xs : List String)
    → member x (keep_if p xs) ≡ (member x xs && p x)
member-keep_if x p [] = refl
member-keep_if x p (y ∷ xs) = elim (Bool-cases (p y)) [
  | inl kept ↦ rw kept (elim (Bool-cases (y == x)) [
    | inl same ↦ rw same (sym (ap p (sym ((string_eq.beq_iff y x).0 same)) ∙ kept))
    | inr other ↦ rw other (member-keep_if x p xs)
  ])
  | inr left ↦ rw left (elim (Bool-cases (y == x)) [
    | inl same ↦
        let q : p x ≡ false = ap p (sym ((string_eq.beq_iff y x).0 same)) ∙ left in
        rw same (rw q (member-keep_if x p xs ∙ rw q (and_false (member x xs))))
    | inr other ↦ rw other (member-keep_if x p xs)
  ])
]

admits-narrowed :
    (ceiling own : Option (List String)) (name : String) (registered : Bool)
    → (admits ceiling name
        && admits own name
        && (registered || not (is_some ceiling || is_some own)))
      ≡ (admits (narrowed ceiling own) name && (registered || not (is_some (narrowed ceiling own))))
admits-narrowed none none name registered = refl
admits-narrowed none (some tools) name registered = refl
admits-narrowed (some allowed) none name registered = ground arith
admits-narrowed (some allowed) (some tools) name registered =
    rw (member-keep_if name (λ tool. member tool allowed) tools)
      (swapped (member name allowed) (member name tools) registered)
  where
    swapped : (b d r : Bool) → (b && d && (r || false)) ≡ (d && b && (r || false))
    swapped true true r = refl
    swapped true false r = refl
    swapped false true r = refl
    swapped false false r = refl

allowed_tools-narrowed :
    (ceiling : Option (List String)) (agent : Option Agent) (digest : Option String)
    → allowed_tools_of
        (record { tool_ceiling = ceiling; agent_identity = agent; registry_digest = digest })
      ≡ narrowed ceiling (agent_tools agent)
allowed_tools-narrowed ceiling none digest = refl
allowed_tools-narrowed ceiling (some agent) digest = refl

permits-allowed_tools_of :
    (t : Authority) (name : String)
    → permits t name ≡ (
        admits (allowed_tools_of t) name
        && (is_some t.registry_digest || not (is_some (allowed_tools_of t))))
permits-allowed_tools_of t name =
    rw (allowed_tools-narrowed t.tool_ceiling t.agent_identity t.registry_digest) (
      admits-narrowed t.tool_ceiling (agent_tools t.agent_identity) name
        (is_some t.registry_digest))

module _ {S : Type 0} where
  -- What the step functions work on, and the arbiter, are the same before and after.
  abbrev pub Untouched : Run S → Run S → Type 0
  Untouched r r' = (r'.world.outside ≡ r.world.outside) × (r'.world.arbiter ≡ r.world.arbiter)

  -- The operation raised, and called nothing.
  abbrev pub Refuses : {A : Type 0} → Run S → Run S × Outcome A → Type 0
  Refuses r (r', returned v) = true ≡ false
  Refuses r (r', raised e causes) = Untouched r r'

  Refuses-moved :
      {A : Type 0} (r r' : Run S) (x : Run S × Outcome A)
      → Untouched r r'
      → Refuses r' x
      → Refuses r x
  Refuses-moved r r' (r₁, returned v) same never = never
  Refuses-moved r r' (r₁, raised e causes) same kept = (kept.0 ∙ same.0, kept.1 ∙ same.1)

  Refuses-after :
      {A B : Type 0} (f : A → Step S B) (r : Run S) (x : Run S × Outcome A)
      → Untouched r x.0
      → ((v : A) (r' : Run S) → Refuses r' (f v r'))
      → Refuses r (after f x)
  unfolding after
  Refuses-after f r (r', returned v) same next = Refuses-moved r r' (f v r') same (next v r')
  Refuses-after f r (r', raised e causes) same next = same

  Refuses-first :
      {A B : Type 0} (f : A → Step S B) (r : Run S) (x : Run S × Outcome A)
      → Refuses r x
      → Refuses r (after f x)
  unfolding after
  Refuses-first f r (r', returned v) never = absurd (cc never)
  Refuses-first f r (r', raised e causes) kept = kept

  or_raise-Untouched : {A : Type 0} (x : Result A) (r : Run S) → Untouched r (or_raise x r).0
  or_raise-Untouched (ok v) r = (refl, refl)
  or_raise-Untouched (err e) r = (refl, refl)

  moved-Untouched : (r : Run S) (x : Result (MemoryStore × Node)) → Untouched r (moved r x).0
  moved-Untouched r (ok (s, n)) = (refl, refl)
  moved-Untouched r (err e) = (refl, refl)

module _ ⦃h : Sha256⦄ ⦃a : Amounts⦄ {S : Type 0} (c : Config) (o : Moment) (t : Authority) where
  policy-Refuses :
      (A : Type 0) (digest : Option String) (detail : String) (payload : Fields) (r : Run S)
      → Refuses r (refuse_policy c o {A = A} digest detail payload r)
  unfolding refuse_policy
  policy-Refuses A digest detail payload r = Refuses-after _ r _ (or_raise-Untouched _ r) (λ d r₁.
      Refuses-after _ r₁ _ (or_raise-Untouched _ r₁)
        (λ n r₂. Refuses-after _ r₂ _ (moved-Untouched r₂ _) (λ m r₃. (refl, refl))))

  check_allowed_cases :
      (name : String) (allowed : Option (List String)) (digest : Option String) (r : Run S)
      → ((admits allowed name && (is_some digest || not (is_some allowed)) ≡ true)
          × (check_allowed c o t name allowed digest r ≡ (r, returned tt)))
        ⊎ ((admits allowed name && (is_some digest || not (is_some allowed)) ≡ false)
            × Refuses r (check_allowed c o t name allowed digest r))
  check_allowed_cases name none none r = inl (refl, refl)
  check_allowed_cases name none (some d) r = inl (refl, refl)
  check_allowed_cases name (some allowed) none r = inr (
    and_false (member name allowed),
    policy-Refuses (Unit {0}) none "tool permissions require a registry" _ r,
  )
  check_allowed_cases name (some allowed) (some d) r = elim (Bool-cases (member name allowed)) [
    | inl inside ↦ inl (rw inside refl, rw inside refl)
    | inr outside ↦ inr (rw outside refl, rw outside (policy-Refuses (Unit {0}) (some d) _ _ r))
  ]

  -- A delegated run may call a tool exactly if the team's list and the agent's list, where they are there,
  -- both have it, and there is a registry if one of them is there: the check then changes nothing.
  -- Otherwise the check raises, and so does a call of the tool without a registry, with what the step
  -- functions work on and the arbiter as they were.
  pub check_tool_authority_exact :
      (name : String) (args : Fields) (tries : ℕ) (fn : Option (StepFn S)) (run : Run S)
      → validate_agent_cursor c.delegation run.world.store run.cursor_id ≡ ok tt
      → ((permits t name ≡ true) × (check_tool_authority c o t name run ≡ (run, returned tt)))
        ⊎ ((permits t name ≡ false)
            × Refuses run (check_tool_authority c o t name run)
            × Refuses run (unfenced_tool_call c o t name args tries fn run))
  unfolding check_tool_authority unfenced_tool_call after
  check_tool_authority_exact name args tries fn run allowed =
      let cases = check_allowed_cases name (allowed_tools_of t) t.registry_digest run in
      rw allowed (
        rw (permits-allowed_tools_of t name) (elim cases [
          | inl (admitted, passes) ↦ inl (admitted, passes)
          | inr (denied, raises) ↦ inr (
            denied,
            raises,
            Refuses-first {A = Unit {0}} {B = Node} (λ done. call_given c o t name args tries fn)
                run _ raises,
          )
        ]))
