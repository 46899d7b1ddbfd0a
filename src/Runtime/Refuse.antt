-- ===== src/Runtime/Refuse.antt =====
-- Refusals in src/pollard/runtime.py: a call or a note that does not fit becomes a node under the cursor, and
-- the run raises.
use pollard.Common.{ℕ, String, Bool, false, Option, none, some, string_eq, if◌then◌else◌}
use pollard.Common.Int.{ℤ, pos}
use pollard.Json.{null, int, str, Fields, end, field, merge_fields}
use pollard.Hashing.{Sha256, digest_payload}
use pollard.Tree.{Node, NodeKind, kind_text, make}
use pollard.Tree
use pollard.Arbiter.{Refusal}
use pollard.Governor.Charges.{Amounts}
use pollard.Runtime.{budget_exceeded, policy_violation, Step, raise, or_raise, ◌>>=◌, advance}
use pollard.Runtime.Config.{MeterRefusal, Config, Moment}

-- What `_refuse` is told. `check` is what was requested and what remained.
pub record Refused : Type 0 where
  pub check : Option (ℤ × ℤ)
  pub meter : String
  pub estimated : Bool
  pub reason : String
  pub window_seconds : Option ℕ
  pub detail : Option String
  pub audit_meta : Fields
  pub requested : Option String
  pub remaining : Option String

abbrev pub budget_refused : String → ℤ → ℤ → Bool → Refused
budget_refused meter requested remaining estimated = record {
  check = some (requested, remaining);
  meter = meter;
  estimated = estimated;
  reason = "budget";
  window_seconds = none;
  detail = none;
  audit_meta = end;
  requested = none;
  remaining = none;
}

abbrev pub arbiter_refused : Refusal → Bool → Refused
arbiter_refused r estimated = record {
  check = some (r.requested, r.remaining);
  meter = r.meter;
  estimated = estimated;
  reason = if r.is_window then "window" else "budget";
  window_seconds = r.window_seconds;
  detail = none;
  audit_meta = end;
  requested = none;
  remaining = none;
}

abbrev pub meter_refused : String → MeterRefusal → Refused
meter_refused meter m = record {
  check = none;
  meter = meter;
  estimated = false;
  reason = m.reason;
  window_seconds = none;
  detail = m.detail;
  audit_meta = m.audit_meta;
  requested = m.requested;
  remaining = m.remaining;
}

-- `if value is not None: payload[name] = value`, in front of the fields after it
abbrev pub optional_field : String → Option String → Fields → Fields
optional_field name none rest = rest
optional_field name (some value) rest = field name (str value) rest

abbrev pub optional_seconds : Option ℕ → Fields → Fields
optional_seconds none rest = rest
optional_seconds (some n) rest = field "window_seconds" (int (pos n)) rest

module _ ⦃a : Amounts⦄ where
  abbrev pub check_fields : Refused → Fields → Fields
  check_fields r rest = elim r.check [
    | some (requested, remaining) ↦
        field "requested" (str (a.text_of requested))
          (field "remaining" (str (a.text_of remaining)) rest)
    | none ↦ optional_field "requested" r.requested (optional_field "remaining" r.remaining rest)
  ]

  unfoldable pub refusal_payload : Refused → String → String → Fields
  refusal_payload r kind digest = field "reason" (str r.reason) (
      field "meter" (str r.meter) (
        field "blocked_kind" (str kind) (
          field "blocked_payload_digest" (str digest) (
            check_fields r (
              optional_field "detail" r.detail (
                (if r.estimated then field "estimated" (str "true") else (λ fs. fs))
                  (optional_seconds r.window_seconds end)))))))

abbrev pub created : Moment → Fields → Fields
created o rest = field "created_at" (str o.created_at) rest

module _ ⦃h : Sha256⦄ ⦃a : Amounts⦄ {S : Type 0} (c : Config) (o : Moment) where
  -- `_refuse`
  unfoldable pub refuse : {A : Type 0} → Refused → String → Fields → Step S A
  unfolding refusal_payload
  refuse r kind payload run =
      (do
        digest ← or_raise (digest_payload payload)
        node ← or_raise (
            make Tree.refusal (some run.cursor_id) (refusal_payload r kind digest) 0 null
              (merge_fields (created o end) r.audit_meta))
        stored ← advance c.mode node
        raise (budget_exceeded r.meter stored.id))
        run

  -- `_refuse_policy`, with the digest of the registry, if there is one.
  unfoldable pub refuse_policy : {A : Type 0} → Option String → String → Fields → Step S A
  refuse_policy registry_digest detail payload run =
      (do
        digest ← or_raise (digest_payload payload)
        node ← or_raise (
            make Tree.refusal (some run.cursor_id)
              (field "reason" (str "policy") (
                field "detail" (str detail) (
                  field "blocked_kind" (str "tool_call") (
                    field "blocked_payload_digest" (str digest)
                      (optional_field "registry_digest" registry_digest end)))))
              0 null (created o end))
        stored ← advance c.mode node
        raise (policy_violation detail stored.id))
        run
