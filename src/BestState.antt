-- ===== src/BestState.antt =====
-- class BestStateStore of noesis_harness/best_state.py. Scores are natural numbers, and none is a
-- score that is not a finite number. `payload` and `metadata` are JSON texts, `sha256` the hex
-- digest. The columns best_state_id and best_score, which are only written together, are one
-- optional pair.
pub mod Updates
pub mod Best
use noesis_harness_agent_mem.Prelude.{
  ok, err, ltb, if◌then◌else◌, is_some, Result, ℕ, ◌+◌, String, Bool, true, false, ◌&&◌, not,
  Option, none, some, List, [], ◌∷◌, ◌++◌, ◌==◌,
}
use noesis_harness_agent_mem.Table.{fetchone, update}

pub record StateRecord : Type 0 where
  pub state_id : String
  pub run_id : String
  pub score : ℕ
  pub payload : String
  pub artifact_digest : String
  pub verifier_status : String
  pub metadata : String
  pub created_at : ℕ

pub record Run : Type 0 where
  pub run_id : String
  pub best : Option (String × ℕ)
  pub current_state_id : Option String
  pub revision : ℕ
  pub updated_at : ℕ

pub record RollbackEvent : Type 0 where
  pub event_id : String
  pub run_id : String
  pub from_state_id : Option String
  pub to_state_id : String
  pub reason : String
  pub created_at : ℕ

pub record BestStateStore : Type 0 where
  pub runs : List Run
  pub states : List StateRecord
  pub rollbacks : List RollbackEvent

pub data DecisionStatus : Type 0 where
  best_accepted accepted_not_best rejected_verification rejected_score : DecisionStatus

pub data RecoveryStatus : Type 0 where
  recovered noop unavailable : RecoveryStatus

pub record CandidateDecision : Type 0 where
  pub status : DecisionStatus
  pub state : StateRecord
  pub best : Option (String × ℕ)
  pub revision : ℕ

pub record RecoveryResult : Type 0 where
  pub status : RecoveryStatus
  pub run_id : String
  pub from_state_id : Option String
  pub to_state_id : Option String
  pub best_score : Option ℕ
  pub revision : ℕ

-- sqlite3.IntegrityError; TypeError for a run row that is not there
pub data Error : Type 0 where
  integrity_error type_error : Error

abbrev pub has_run : String → Run → Bool
has_run k r = r.run_id == k

abbrev pub has_state : String → StateRecord → Bool
has_state k x = x.state_id == k

-- INSERT OR IGNORE INTO run_state
unfoldable pub ensure_run : String → ℕ → List Run → List Run
ensure_run k now runs =
    if is_some (fetchone (has_run k) runs)
    then runs
    else (runs
        ++ record {
          run_id = k;
          best = none;
          current_state_id = none;
          revision = 0;
          updated_at = now;
        }
          ∷ [])

abbrev pub touch : ℕ → ℕ → Run → Run
touch revision now r = record r { revision = revision; updated_at = now }

abbrev pub set_current : String → ℕ → ℕ → Run → Run
set_current sid revision now r = record r {
  current_state_id = some sid;
  revision = revision;
  updated_at = now;
}

-- best_id is None or float(score) > float(best_score)
abbrev pub is_better : ℕ → Option (String × ℕ) → Bool
is_better v none = true
is_better v (some (b, best)) = ltb best v

-- the UPDATEs of run_state for a candidate
unfoldable pub decide : StateRecord → Option ℕ → Run → ℕ → List Run → CandidateDecision × List Run
decide x none run now runs = (
  record { status = rejected_score; state = x; best = run.best; revision = run.revision + 1 },
  update (has_run x.run_id) (touch (run.revision + 1) now) runs,
)
decide x (some v) run now runs =
    let current = update (has_run x.run_id) (set_current x.state_id (run.revision + 1) now) runs in
    if not (x.verifier_status == "passed")
    then (
      record {
        status = rejected_verification;
        state = x;
        best = run.best;
        revision = run.revision + 1;
      },
      update (has_run x.run_id) (touch (run.revision + 1) now) runs,
    )
    else if is_better v run.best
    then (
      record {
        status = best_accepted;
        state = x;
        best = some (x.state_id, v);
        revision = run.revision + 1;
      },
      update (has_run x.run_id) (λ r. record r { best = some (x.state_id, v) }) current,
    )
    else (
      record {
        status = accepted_not_best;
        state = x;
        best = run.best;
        revision = run.revision + 1;
      },
      current,
    )

unfoldable pub record_row :
    BestStateStore
    → StateRecord
    → Option ℕ
    → ℕ
    → List Run
    → Option Run
    → Result Error CandidateDecision × BestStateStore
record_row s x score now runs none = (err type_error, s)
record_row s x score now runs (some run) =
    let decision = decide x score run now runs in
    (ok (decision.0), record s { runs = decision.1; states = s.states ++ x ∷ [] })

abbrev pub new_state :
    (String → String)
    → String
    → Option ℕ
    → String
    → String
    → String
    → String
    → String
    → ℕ
    → StateRecord
new_state sha256 k score payload verifier digest metadata sid now = record {
  state_id = sid;
  run_id = k;
  score = (elim score [ none ↦ 0 | some v ↦ v ]);
  payload = payload;
  artifact_digest = if digest == "" then sha256 payload else digest;
  verifier_status = verifier;
  metadata = metadata;
  created_at = now;
}

-- the transaction of `record_candidate`
unfoldable pub record_state :
    BestStateStore → StateRecord → Option ℕ → ℕ → Result Error CandidateDecision × BestStateStore
record_state s x score now =
    if is_some (fetchone (has_state x.state_id) s.states)
    then (err integrity_error, s)
    else record_row s x score now (ensure_run x.run_id now s.runs)
        (fetchone (has_run x.run_id) (ensure_run x.run_id now s.runs))

-- `sid` is the given state_id, or what uuid4 draws
unfoldable pub record_candidate :
    (String → String)
    → BestStateStore
    → String
    → Option ℕ
    → String
    → String
    → String
    → String
    → String
    → ℕ
    → Result Error CandidateDecision × BestStateStore
record_candidate sha256 s k score payload verifier digest metadata sid now =
    record_state s (new_state sha256 k score payload verifier digest metadata sid now) score now

abbrev pub best_of : Option Run → Option (String × ℕ)
best_of none = none
best_of (some r) = r.best

abbrev pub current_of : Option Run → Option String
current_of none = none
current_of (some r) = r.current_state_id

-- SELECT … FROM states s JOIN run_state r ON r.best_state_id = s.state_id WHERE r.run_id = ?
abbrev pub state_of_best : List StateRecord → Option (String × ℕ) → Option StateRecord
state_of_best states none = none
state_of_best states (some (b, score)) = fetchone (has_state b) states

abbrev pub state_of_current : List StateRecord → Option String → Option StateRecord
state_of_current states none = none
state_of_current states (some k) = fetchone (has_state k) states

unfoldable pub best : BestStateStore → String → Option StateRecord
best s k = state_of_best s.states (best_of (fetchone (has_run k) s.runs))

unfoldable pub current : BestStateStore → String → Option StateRecord
current s k = state_of_current s.states (current_of (fetchone (has_run k) s.runs))

abbrev pub is_passed : Option StateRecord → Bool
is_passed none = false
is_passed (some x) = x.verifier_status == "passed"

abbrev pub is_at : Option String → String → Bool
is_at none target = false
is_at (some k) target = k == target

abbrev pub no_best : String → RecoveryResult
no_best k = record {
  status = unavailable;
  run_id = k;
  from_state_id = none;
  to_state_id = none;
  best_score = none;
  revision = 0;
}

-- what `rollback` does with the row of its target
unfoldable pub roll_to :
    BestStateStore
    → Run
    → ℕ
    → String
    → String
    → String
    → ℕ
    → Option StateRecord
    → RecoveryResult × BestStateStore
roll_to s run score target reason fresh now found =
    let refused : RecoveryResult = record {
      status = unavailable;
      run_id = run.run_id;
      from_state_id = run.current_state_id;
      to_state_id = none;
      best_score = some score;
      revision = run.revision;
    } in
    let event : RollbackEvent = record {
      event_id = fresh;
      run_id = run.run_id;
      from_state_id = run.current_state_id;
      to_state_id = target;
      reason = reason;
      created_at = now;
    } in
    let same = is_at run.current_state_id target in
    if not (is_passed found) then (refused, s) else (
      record refused {
        status = if same then noop else recovered;
        to_state_id = some target;
        revision = run.revision + 1;
      },
      record s {
        runs = update (has_run run.run_id) (set_current target (run.revision + 1) now) s.runs;
        rollbacks = if same then s.rollbacks else s.rollbacks ++ event ∷ [];
      },
    )

unfoldable pub roll_best :
    BestStateStore
    → Run
    → String
    → String
    → String
    → ℕ
    → Option (String × ℕ)
    → RecoveryResult × BestStateStore
roll_best s run state_id reason fresh now none = (no_best run.run_id, s)
roll_best s run state_id reason fresh now (some (b, score)) =
    let target = if state_id == "" then b else state_id in
    roll_to s run score target reason fresh now
      (fetchone (λ x. has_state target x && (x.run_id == run.run_id)) s.states)

unfoldable pub roll_run :
    BestStateStore
    → String
    → String
    → String
    → String
    → ℕ
    → Option Run
    → RecoveryResult × BestStateStore
roll_run s k state_id reason fresh now none = (no_best k, s)
roll_run s k state_id reason fresh now (some run) =
    roll_best s run state_id reason fresh now run.best

-- an absent state_id is the empty text; `fresh` is what uuid4 draws
unfoldable pub rollback :
    BestStateStore → String → String → String → String → ℕ → RecoveryResult × BestStateStore
rollback s k state_id reason fresh now =
    roll_run s k state_id reason fresh now (fetchone (has_run k) s.runs)

unfoldable pub recover :
    BestStateStore → String → String → String → ℕ → RecoveryResult × BestStateStore
recover s k reason fresh now = rollback s k "" reason fresh now
