-- ===== src/Runtime/Tools.antt =====
-- `Run._check_tool_authority` of src/pollard/runtime.py: which tools a delegated run may call; and
-- `tool_call` where there is no registry.
pub mod Permits
use pollard.Common.{
  ℕ, String, Bool, true, false, List, Option, none, some, string_eq, keep_if, if◌then◌else◌,
}
use pollard.Errors.{type_error}
use pollard.Json.{obj, str, Fields, end, field}
use pollard.Hashing.{Sha256}
use pollard.Tree.{Node, tool_call}
use pollard.Store.{member}
use pollard.Governor.Charges.{Amounts}
use pollard.Runtime.{error, Step, return, raise, or_raise, ◌>>=◌, ◌>>◌}
use pollard.Runtime.Config.{Config, Moment}
use pollard.Runtime.Cursor.{validate_agent_cursor}
use pollard.Runtime.Refuse.{refuse_policy}
use pollard.Runtime.Call.{StepFn}
use pollard.Runtime.Call.Finish.{call}

-- `AgentIdentity`
pub record Agent : Type 0 where
  pub team_id : String
  pub agent_id : String
  pub task_id : String
  pub role : Option String
  pub allowed_tools : Option (List String)

-- The digest of the registry is there when the runtime has one.
pub record Authority : Type 0 where
  pub tool_ceiling : Option (List String)
  pub agent_identity : Option Agent
  pub registry_digest : Option String

abbrev pub narrowed : Option (List String) → Option (List String) → Option (List String)
narrowed ceiling none = ceiling
narrowed none (some tools) = some tools
narrowed (some allowed) (some tools) = some (keep_if (λ tool. member tool allowed) tools)

-- `allowed_tools`, after the agent's own tools were taken into account.
abbrev pub allowed_tools_of : Authority → Option (List String)
allowed_tools_of t = elim t.agent_identity [
  | none ↦ t.tool_ceiling
  | some agent ↦ narrowed t.tool_ceiling agent.allowed_tools
]

abbrev pub agent_fields : Option Agent → Fields
agent_fields none = end
agent_fields (some agent) =
    field "agent_id" (str agent.agent_id) (field "task_id" (str agent.task_id) end)

abbrev pub outside_detail : Option Agent → String
outside_detail none = "tool is outside team permissions"
outside_detail (some agent) = "tool is outside delegated permissions"

module _ ⦃h : Sha256⦄ ⦃a : Amounts⦄ {S : Type 0} (c : Config) (o : Moment) (t : Authority) where
  abbrev pub check_allowed : String → Option (List String) → Option String → Step S (Unit {0})
  check_allowed name none registry_digest = return tt
  check_allowed name (some allowed) none =
      refuse_policy c o none "tool permissions require a registry" (field "tool" (str name) end)
  check_allowed name (some allowed) (some digest) =
      if member name allowed
      then return tt
      else refuse_policy c o (some digest) (outside_detail t.agent_identity)
          (field "tool" (str name) (agent_fields t.agent_identity))

  -- `_check_tool_authority`, which does not look at the arguments.
  unfoldable pub check_tool_authority : String → Step S (Unit {0})
  unfolding refuse_policy
  check_tool_authority name run =
      (do
        or_raise (validate_agent_cursor c.delegation run.world.store run.cursor_id)
        check_allowed name (allowed_tools_of t) t.registry_digest)
        run

  abbrev pub call_given : String → Fields → ℕ → Option (StepFn S) → Step S Node
  call_given name args tries none = raise (error type_error)
  call_given name args tries (some fn) =
      call c o tool_call (field "tool" (str name) (field "args" (obj args) end)) none tries fn none

  -- `tool_call` without a registry.
  unfoldable pub unfenced_tool_call : String → Fields → ℕ → Option (StepFn S) → Step S Node
  unfolding check_tool_authority call
  unfenced_tool_call name args tries fn = check_tool_authority name >> call_given name args tries fn
