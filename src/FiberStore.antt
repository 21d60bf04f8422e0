-- ===== src/FiberStore.antt =====
-- class FiberStore of noesis_harness/fibers.py. The columns `state` and `payload` are JSON texts;
-- `is_object` tells whether json.loads makes a dict of one. Steps are natural numbers. `audit`, where it
-- is set, is the sequence of the calls of AuditChain.append that returned, and tells which ones raise.
pub mod Resuming
pub mod Checkpoints
pub mod Restored
use noesis_harness_agent_mem.Prelude.{
  ok, err, ltb, leb, if◌then◌else◌, is_some, Result, ℕ, suc, String, Bool, true, false, ◌&&◌,
  Option, none, some, List, [], ◌∷◌, ◌++◌, ◌==◌,
}
use noesis_harness_agent_mem.Table.{select, fetchone, update, order_by}

pub data Status : Type 0 where
  checkpointed running interrupted completed restored corrupted : Status

pub record Fiber : Type 0 where
  pub fiber_id : String
  pub name : String
  pub status : Status
  pub step : ℕ
  pub state : String
  pub payload : String
  pub attempt : ℕ
  pub error : String
  pub updated_at : ℕ

pub data Event : Type 0 where
  fiber_checkpoint : String → ℕ → Status → Event
  fiber_restored : String → ℕ → ℕ → Event
  fiber_interrupted : String → ℕ → String → Event

-- `refuses` tells whether append raises, after the events so far
pub record Audit : Type 0 where
  pub refuses : List Event → Event → Bool
  pub events : List Event

pub record FiberStore : Type 0 where
  pub audit : Option Audit
  pub rows : List Fiber

pub data Error : Type 0 where
  key_error fiber_corrupt value_error audit_error : Error
  runner_error : String → Error

abbrev pub has_id : String → Fiber → Bool
has_id k r = r.fiber_id == k

abbrev pub refused : Option Audit → Event → Bool
refused none e = false
refused (some a) e = a.refuses a.events e

abbrev pub log : Option Audit → Event → Option Audit
log none e = none
log (some a) e = some (record a { events = a.events ++ e ∷ [] })

-- INSERT OR IGNORE; an absent fiber_id is the empty text, and `fresh` is what uuid4 draws
unfoldable pub register : FiberStore → String → String → String → String → ℕ → String × FiberStore
register s name payload fiber_id fresh now =
    let fid = if fiber_id == "" then fresh else fiber_id in
    let row : Fiber = record {
      fiber_id = fid;
      name = name;
      status = checkpointed;
      step = 0;
      state = "{}";
      payload = payload;
      attempt = 0;
      error = "";
      updated_at = now;
    } in
    (
      fid,
      if is_some (fetchone (has_id fid) s.rows) then s else record s { rows = s.rows ++ row ∷ [] },
    )

abbrev pub is_recoverable : Status → Bool
is_recoverable checkpointed = true
is_recoverable running = true
is_recoverable interrupted = true
is_recoverable s = false

abbrev pub is_completed : Status → Bool
is_completed completed = true
is_completed s = false

-- what the runner does: it raises, or returns a step, a state and whether it is done. A result without
-- a step and a state is the TypeError that `resume` raises.
pub data Outcome : Type 0 where
  raised : String → Outcome
  stepped : ℕ → String → Bool → Outcome

abbrev pub kept : Result Error Fiber → List Fiber → List Fiber
kept (ok r) rs = r ∷ rs
kept (err e) rs = rs

abbrev pub set_checkpoint : Status → ℕ → String → ℕ → Fiber → Fiber
set_checkpoint status step state now r = record r {
  status = status;
  step = step;
  state = state;
  error = "";
  updated_at = now;
}

abbrev pub set_restored : ℕ → String → ℕ → Fiber → Fiber
set_restored step state now r = record r {
  status = restored;
  step = step;
  state = state;
  attempt = suc r.attempt;
  error = "";
  updated_at = now;
}

abbrev pub set_running : ℕ → Fiber → Fiber
set_running now r = record r {
  status = running;
  attempt = suc r.attempt;
  error = "";
  updated_at = now;
}

abbrev pub message : Error → String
message key_error = "KeyError"
message fiber_corrupt = "FiberCorrupt"
message value_error = "ValueError"
message audit_error = "Exception"
message (runner_error e) = e

module _ (is_object : String → Bool) where
  abbrev pub decoded : Option Fiber → Result Error Fiber
  decoded none = err key_error
  decoded (some r) = if is_object r.state && is_object r.payload then ok r else err fiber_corrupt

  -- _row, and `get`
  unfoldable pub get : FiberStore → String → Result Error Fiber
  get s k = decoded (fetchone (has_id k) s.rows)

  unfoldable pub quarantine : FiberStore → String → ℕ → FiberStore
  quarantine s k now = record s {
    rows =
        update (has_id k)
          (λ r. record r { status = corrupted; error = "checkpoint_corrupt"; updated_at = now })
          s.rows;
  }

  -- the audit after the row was written and read back: where it raises, the row stays
  abbrev pub audited : FiberStore → Event → Result Error Fiber → Result Error Fiber × FiberStore
  audited s e (err x) = (err x, s)
  audited s e (ok r) =
      if refused s.audit e then (err audit_error, s) else (ok r, record s { audit = log s.audit e })

  unfoldable pub checkpoint_at :
      FiberStore
      → String
      → ℕ
      → String
      → Bool
      → ℕ
      → Result Error Fiber
      → Result Error Fiber × FiberStore
  checkpoint_at s k step state finished now (err e) = (err e, s)
  checkpoint_at s k step state finished now (ok current) =
      let status = if finished then completed else checkpointed in
      let s' = record s {
        rows = update (has_id k) (set_checkpoint status step state now) s.rows;
      } in
      if ltb step current.step
      then (err value_error, s)
      else audited s' (fiber_checkpoint k step status) (get s' k)

  unfoldable pub checkpoint :
      FiberStore → String → ℕ → String → Bool → ℕ → Result Error Fiber × FiberStore
  checkpoint s k step state finished now = checkpoint_at s k step state finished now (get s k)

  unfoldable pub restore_at :
      FiberStore → String → ℕ → String → ℕ → Result Error Fiber → Result Error Fiber × FiberStore
  restore_at s k step state now (err e) = (err e, s)
  restore_at s k step state now (ok current) =
      let s' = record s { rows = update (has_id k) (set_restored step state now) s.rows } in
      audited s' (fiber_restored k current.step step) (get s' k)

  unfoldable pub restore : FiberStore → String → ℕ → String → ℕ → Result Error Fiber × FiberStore
  restore s k step state now = restore_at s k step state now (get s k)

  -- `except FiberCorrupt`: a row that cannot be read is quarantined
  abbrev pub after_read : FiberStore → String → ℕ → Result Error Fiber → FiberStore
  after_read s k now (ok r) = s
  after_read s k now (err e) = quarantine s k now

  -- the loop of `recoverable` over the selected identifiers
  unfoldable pub collect : FiberStore → List Fiber → ℕ → List Fiber × FiberStore
  collect s [] now = ([], s)
  collect s (r ∷ rs) now =
      let o = get s r.fiber_id in
      let rest = collect (after_read s r.fiber_id now o) rs now in (kept o rest.0, rest.1)

  unfoldable pub recoverable : FiberStore → ℕ → List Fiber × FiberStore
  recoverable s now =
      collect s
        (order_by (λ a b. leb a.updated_at b.updated_at)
          (select (λ r. is_recoverable r.status) s.rows))
        now

  unfoldable pub interrupt :
      FiberStore → String → ℕ → String → Error → ℕ → Result Error Fiber × FiberStore
  interrupt s k step message e now =
      let s' = record s {
        rows =
            update (has_id k)
              (λ r. record r { status = interrupted; error = message; updated_at = now }) s.rows;
      } in
      if refused s.audit (fiber_interrupted k step message)
      then (err audit_error, s')
      else (err e, record s' { audit = log s.audit (fiber_interrupted k step message) })

  abbrev pub checked :
      String → ℕ → ℕ → Result Error Fiber × FiberStore → Result Error Fiber × FiberStore
  checked k step now (ok r, s) = (ok r, s)
  checked k step now (err e, s) = interrupt s k step (message e) e now

  -- the `try` of `resume`
  unfoldable pub attempted : FiberStore → String → ℕ → ℕ → Outcome → Result Error Fiber × FiberStore
  attempted s k step now (raised e) = interrupt s k step e (runner_error e) now
  attempted s k step now (stepped step' state finished) =
      checked k step now (checkpoint s k step' state finished now)

  unfoldable pub resume_running :
      FiberStore
      → String
      → (ℕ → String → String → Outcome)
      → ℕ
      → Result Error Fiber
      → Result Error Fiber × FiberStore
  resume_running s k runner now (err e) = (err e, s)
  resume_running s k runner now (ok r) = attempted s k r.step now (runner r.step r.state r.payload)

  unfoldable pub resume_at :
      FiberStore
      → String
      → (ℕ → String → String → Outcome)
      → ℕ
      → Result Error Fiber
      → Result Error Fiber × FiberStore
  resume_at s k runner now (err key_error) = (err key_error, s)
  resume_at s k runner now (err e) = (err e, quarantine s k now)
  resume_at s k runner now (ok current) =
      let s' = record s { rows = update (has_id k) (set_running now) s.rows } in
      if is_completed current.status
      then (ok current, s)
      else resume_running s' k runner now (get s' k)

  -- The runner's own calls of the store, if any, are not modelled.
  unfoldable pub resume :
      FiberStore → String → (ℕ → String → String → Outcome) → ℕ → Result Error Fiber × FiberStore
  resume s k runner now = resume_at s k runner now (get s k)
