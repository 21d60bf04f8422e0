-- ===== src/Gatekeeper.antt =====
-- class Gatekeeper of noesis_harness/gatekeeper.py. `events` is the sequence of the events that its
-- EventStore holds; `same` tells whether two records have one fingerprint there, and the identifier of a
-- transition (uuid4) is always new. `safe` is the redaction `_safe` of a text, `findings` tells whether the
-- scanner finds something in a request, `digest` is the request's identity_digest, and `rid` its
-- normalized_id. The field `simulated`, which repeats the request, is left out.
pub mod Records
pub mod Approval
use noesis_harness_agent_mem.Prelude.{
  ok, err, if◌then◌else◌, contains, Result, ℕ, String, Bool, true, false, ◌&&◌, ◌||◌, not, Option,
  none, some, List, [], ◌∷◌, ◌++◌, ◌==◌,
}
use noesis_harness_agent_mem.Dict.{lookup, insert}

pub record CapabilityRequest : Type 0 where
  pub session_id : String
  pub task_id : String
  pub agent_id : String
  pub capability : String
  pub action : String
  pub target : String
  pub side_effect : String
  pub arguments : String
  pub rid : String
  pub digest : String

pub data Status : Type 0 where
  waiting_approval prepared approved rejected committed : Status

-- the payload of gate_prepared; `reason` and `updated_at` are overwritten by the transitions
pub record Record : Type 0 where
  pub request_id : String
  pub session_id : String
  pub task_id : String
  pub agent_id : String
  pub capability : String
  pub action : String
  pub target : String
  pub side_effect : String
  pub arguments : String
  pub identity_digest : String
  pub status : Status
  pub reason : String
  pub created_at : ℕ
  pub updated_at : ℕ

-- a gate_prepared event with the request's identifier as its event_id has it, which is not redacted
pub data Event : Type 0 where
  gate_prepared : String → Record → Event
  gate_transition : String → Status → String → ℕ → Event

pub data Error : Type 0 where
  identity_required capability_not_registered invalid_side_effect : Error
  external_side_effect_required security_policy_denied request_identity_conflict : Error
  unknown_request invalid_gate_transition event_store_conflict : Error

pub record GateDecision : Type 0 where
  pub request_id : String
  pub status : Status
  pub reason : String

abbrev pub capabilities : List String
capabilities =
    "memory.read" ∷ "models.read" ∷ "workspace.read" ∷ "workspace.write" ∷ "tool.invoke"
    ∷ "skill.execute" ∷ "network.read" ∷ "network.write" ∷ []

abbrev pub side_effects : List String
side_effects = "none" ∷ "read" ∷ "write" ∷ "external" ∷ []

abbrev pub approval_required : List String
approval_required =
    "workspace.write" ∷ "tool.invoke" ∷ "skill.execute" ∷ "network.read" ∷ "network.write" ∷ []

abbrev pub State : Type 0
State = List (String × Record)

abbrev pub move : Status → String → ℕ → Record → Record
move status reason now r = record r { status = status; reason = reason; updated_at = now }

abbrev pub moved : State → String → Status → String → ℕ → Option Record → State
moved state k status reason now none = state
moved state k status reason now (some r) = insert k (move status reason now r) state

-- one event of _state
unfoldable pub apply : State → Event → State
apply state (gate_prepared rid r) = insert r.request_id r state
apply state (gate_transition k status reason now) = moved state k status reason now (lookup k state)

unfoldable pub replay : State → List Event → State
replay state [] = state
replay state (e ∷ es) = replay (apply state e) es

-- _state
unfoldable pub state_of : List Event → State
state_of events = replay [] events

abbrev pub needs_approval : String → String → Bool
needs_approval capability side_effect =
    contains approval_required capability || (side_effect == "write") || (side_effect == "external")

abbrev pub is_empty : String → Bool
is_empty t = t == ""

-- the tests of `prepare`, in its order
unfoldable pub refusal : (CapabilityRequest → Bool) → CapabilityRequest → Option Error
refusal findings q =
    if is_empty q.session_id || is_empty q.task_id || is_empty q.agent_id
    then some identity_required
    else if not (contains capabilities q.capability)
    then some capability_not_registered
    else if not (contains side_effects q.side_effect)
    then some invalid_side_effect
    else if (q.capability == "network.write") && not (q.side_effect == "external")
    then some external_side_effect_required
    else if findings q
    then some security_policy_denied
    else none

abbrev pub first_status : CapabilityRequest → Status
first_status q = if needs_approval q.capability q.side_effect then waiting_approval else prepared

abbrev pub first_reason : CapabilityRequest → String
first_reason q =
    if needs_approval q.capability q.side_effect
    then "human_approval_required"
    else "read_only_capability"

abbrev pub new_record : (String → String) → CapabilityRequest → ℕ → Record
new_record safe q now = record {
  request_id = safe q.rid;
  session_id = safe q.session_id;
  task_id = safe q.task_id;
  agent_id = safe q.agent_id;
  capability = q.capability;
  action = safe q.action;
  target = safe q.target;
  side_effect = q.side_effect;
  arguments = safe q.arguments;
  identity_digest = q.digest;
  status = first_status q;
  reason = first_reason q;
  created_at = now;
  updated_at = now;
}

abbrev pub Reply : Type 0
Reply = Result Error GateDecision × List Event

abbrev pub decision : String → Record → GateDecision
decision k r = record { request_id = k; status = r.status; reason = r.reason }

-- the gate_prepared event of the identifier
unfoldable pub find_prepared : String → List Event → Option Record
find_prepared rid [] = none
find_prepared rid (gate_prepared k r ∷ es) =
    let rest = find_prepared rid es in if k == rid then some r else rest
find_prepared rid (gate_transition k status reason now ∷ es) = find_prepared rid es

-- `events.append` of a gate_prepared event: an identifier is written once
unfoldable pub append_prepared :
    (Record → Record → Bool) → List Event → CapabilityRequest → Record → Option Record → Reply
append_prepared same events q new none = (
  ok (record { request_id = q.rid; status = first_status q; reason = first_reason q }),
  events ++ gate_prepared q.rid new ∷ [],
)
append_prepared same events q new (some old) = (
  if same old new
      then ok (record { request_id = q.rid; status = first_status q; reason = first_reason q })
      else err event_store_conflict,
  events,
)

module _ (safe : String → String) (same : Record → Record → Bool) where
  -- what `prepare` does with the request at its identifier, after the tests
  unfoldable pub prepare_at : List Event → CapabilityRequest → ℕ → Option Record → Reply
  prepare_at events q now (some r) = (
    if r.identity_digest == q.digest then ok (decision q.rid r) else err request_identity_conflict,
    events,
  )
  prepare_at events q now none =
      append_prepared same events q (new_record safe q now) (find_prepared q.rid events)

  unfoldable pub prepare_unless : List Event → CapabilityRequest → ℕ → Option Error → Reply
  prepare_unless events q now (some e) = (err e, events)
  prepare_unless events q now none = prepare_at events q now (lookup q.rid (state_of events))

  unfoldable pub prepare : (CapabilityRequest → Bool) → List Event → CapabilityRequest → ℕ → Reply
  prepare findings events q now = prepare_unless events q now (refusal findings q)

-- the table `allowed` of _transition
abbrev pub is_allowed : Status → Status → Bool
is_allowed waiting_approval approved = true
is_allowed waiting_approval rejected = true
is_allowed prepared committed = true
is_allowed prepared rejected = true
is_allowed approved committed = true
is_allowed approved rejected = true
is_allowed from to = false

unfoldable pub transition_at :
    (String → String) → List Event → String → Status → String → ℕ → Option Record → Reply
transition_at safe events k status reason now none = (err unknown_request, events)
transition_at safe events k status reason now (some r) =
    if is_allowed r.status status
    then (
      ok (record { request_id = k; status = status; reason = reason }),
      events ++ gate_transition (safe k) status (safe reason) now ∷ [],
    )
    else (err invalid_gate_transition, events)

unfoldable pub transition : (String → String) → List Event → String → Status → String → ℕ → Reply
transition safe events k status reason now =
    transition_at safe events k status reason now (lookup k (state_of events))

unfoldable pub approve : (String → String) → List Event → String → ℕ → Reply
approve safe events k now = transition safe events k approved "human_approved" now

unfoldable pub reject : (String → String) → List Event → String → String → ℕ → Reply
reject safe events k reason now = transition safe events k rejected reason now

unfoldable pub commit : (String → String) → List Event → String → ℕ → Reply
commit safe events k now =
    transition safe events k committed "permission_committed_not_executed" now

unfoldable pub get : List Event → String → Option Record
get events k = lookup k (state_of events)

pub data Call : Type 0 where
  prepare_call : CapabilityRequest → Call
  approve_call commit_call : String → Call
  reject_call : String → String → Call

module _ (safe : String → String) (same : Record → Record → Bool)
    (findings : CapabilityRequest → Bool) where
  unfoldable pub step : List Event → ℕ → Call → List Event
  step events now (prepare_call q) = (prepare safe same findings events q now).1
  step events now (approve_call k) = (approve safe events k now).1
  step events now (commit_call k) = (commit safe events k now).1
  step events now (reject_call k reason) = (reject safe events k reason now).1

  unfoldable pub run : List Event → List (ℕ × Call) → List Event
  run events [] = events
  run events ((now, c) ∷ cs) = run (step events now c) cs
