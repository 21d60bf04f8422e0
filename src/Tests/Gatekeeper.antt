-- ===== src/Tests/Gatekeeper.antt =====
-- The gate of noesis_harness/gatekeeper.py on concrete requests.
use noesis_harness_agent_mem.Dict.{lookup, insert}
use noesis_harness_agent_mem.Prelude.{
  err, if◌then◌else◌, text_ne, ℕ, String, ◌≡◌, refl, Bool, false, Option, none, some, List, [], ◌∷◌,
  arith, ◌==◌,
}
use noesis_harness_agent_mem.Gatekeeper.{
  CapabilityRequest, Record, Call, Event, prepare_call, approve_call, commit_call, reject_call,
  refusal, prepare, prepare_unless, prepare_at, append_prepared, find_prepared, transition,
  transition_at, approve, reject, commit, get, step, run, state_of, replay, apply, waiting_approval,
  committed, Status, new_record, unknown_request,
}
use noesis_harness_agent_mem.Gatekeeper.Approval.{Plain, NoApproval, Held, run-Held, run-Ended}

program : Unit {0}
unfolding refusal prepare prepare_unless prepare_at append_prepared find_prepared transition
    transition_at approve reject commit get step run state_of replay apply lookup insert
program = tt

abbrev request : String → String → String → CapabilityRequest
request rid capability side_effect = record {
  session_id = "s";
  task_id = "t";
  agent_id = "a";
  capability = capability;
  action = "run";
  target = "x";
  side_effect = side_effect;
  arguments = "{}";
  rid = rid;
  digest = rid;
}

abbrev plain : String → String
plain t = t

abbrev equal : Record → Record → Bool
equal a b = a.identity_digest == b.identity_digest

abbrev clean : CapabilityRequest → Bool
clean q = false

abbrev status_of : Option Record → Option Status
status_of none = none
status_of (some r) = some r.status

abbrev status_at : String → List Event → Option Status
status_at k events = status_of (get events k)

abbrev unapproved : List (ℕ × Call)
unapproved =
    (1, prepare_call (request "q" "tool.invoke" "external"))
    ∷ (2, prepare_call (request "p" "tool.invoke" "external"))
    ∷ (3, approve_call "p")
    ∷ (4, commit_call "q")
    ∷ (5, commit_call "p")
    ∷ []

abbrev ran : List Event
ran = run plain equal clean [] unapproved

waits : status_at "q" ran ≡ some waiting_approval
unfolding program
waits = refl

goes_on : status_at "p" ran ≡ some committed
unfolding program
goes_on = refl

read_only :
    status_at "r" (
      run plain equal clean []
        ((1, prepare_call (request "r" "memory.read" "read")) ∷ (2, commit_call "r") ∷ []))
    ≡ some committed
unfolding program
read_only = refl

-- a redaction that renames an identifier: the request is stored where the approval does not look for it
abbrev renaming : String → String
renaming t = if t == "hf_1" then "[REDACTED]hf_1" else t

lost :
    (approve renaming
      (run renaming equal clean []
        ((1, prepare_call (request "hf_1" "tool.invoke" "external")) ∷ []))
      "hf_1"
      2).0
    ≡ err unknown_request
unfolding program
lost = refl

unapproved-Plain : Plain plain unapproved
unapproved-Plain = (refl, (refl, (refl, (refl, (refl, tt)))))

unapproved-NoApproval : NoApproval "q" unapproved
unapproved-NoApproval = (
  λ t e. cc,
  (λ t e. cc, (λ t e f. ground (arith, e, f, text_ne "p" "q" refl), (λ t e. cc, (λ t e. cc, tt)))),
)

run-Held_example : Held (get (run plain equal clean [] unapproved) "q")
run-Held_example =
    run-Held plain "q" equal clean [] unapproved unapproved-Plain unapproved-NoApproval
      (unfold program in tt)

abbrev later : List (ℕ × Call)
later =
    (6, reject_call "p" "late")
    ∷ (7, approve_call "p")
    ∷ (8, prepare_call (request "p" "tool.invoke" "external"))
    ∷ []

later-Plain : Plain plain later
later-Plain = (refl, (refl, (refl, tt)))

abbrev last : Record
last = record (new_record plain (request "p" "tool.invoke" "external") 2) {
  status = committed;
  reason = "permission_committed_not_executed";
  updated_at = 5;
}

ended : get ran "p" ≡ some last
unfolding program
ended = refl

run-Ended_example : get (run plain equal clean ran later) "p" ≡ some last
run-Ended_example = run-Ended plain "p" equal clean last ran later later-Plain refl ended
