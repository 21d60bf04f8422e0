-- ===== src/Recovery.antt =====
-- class RecoveryCoordinator of noesis_harness/recovery.py over the models of its parts.
-- `fiber_step` is the field of a state's metadata (0 where it is absent), taken as an integer, and a
-- payload, which is its JSON text, is taken as one of a dict: the exceptions of int(fiber_step) and of
-- dict(payload) are not modelled. An exception of a part leaves the method after the parts before it have committed.
pub mod Restoring
use noesis_harness_agent_mem.Prelude.{
  ok, err, if◌then◌else◌, Result, ℕ, String, Bool, ◌||◌, Option, none, some, ◌==◌,
}
use noesis_harness_agent_mem.BestState
use noesis_harness_agent_mem.BestState.{
  BestStateStore, StateRecord, RecoveryStatus, RecoveryResult, recovered, noop, unavailable,
}
use noesis_harness_agent_mem.FiberStore
use noesis_harness_agent_mem.FiberStore.{FiberStore, Fiber, key_error}
use noesis_harness_agent_mem.WorkCoordinator
use noesis_harness_agent_mem.WorkCoordinator.{WorkCoordinator}
use noesis_harness_agent_mem.Coordination.Actions
use noesis_harness_agent_mem.Coordination.Actions.{Actions}

pub record DurableRecoveryReport : Type 0 where
  pub run_id : String
  pub fiber_id : String
  pub task_id : Option String
  pub best_state_id : Option String
  pub best_score : Option ℕ
  pub fiber : Option Fiber
  pub recovery_status : RecoveryStatus
  pub reclaimed_leases : ℕ
  pub recovery_revision : ℕ
  pub requeued_actions : ℕ

pub record RecoveryCoordinator : Type 0 where
  pub best : BestStateStore
  pub fibers : FiberStore
  pub work : WorkCoordinator
  pub actions : Option Actions

-- what `recover_after_crash` does with the fiber: it may raise
abbrev pub FiberReply : Type 0
FiberReply = Result FiberStore.Error (Option Fiber) × FiberStore

abbrev pub restored : Result FiberStore.Error Fiber × FiberStore → FiberReply
restored (ok r, s) = (ok (some r), s)
restored (err e, s) = (err e, s)

-- `except KeyError`
abbrev pub got : Result FiberStore.Error Fiber → Result FiberStore.Error (Option Fiber)
got (ok r) = ok (some r)
got (err key_error) = ok none
got (err e) = err e

module _ (is_object : String → Bool) (fiber_step : String → ℕ) where
  unfoldable pub restore_best : FiberStore → String → ℕ → Option StateRecord → FiberReply
  restore_best s k now none = (ok none, s)
  restore_best s k now (some target) =
      restored (FiberStore.restore is_object s k (fiber_step target.metadata) target.payload now)

  unfoldable pub restore_fiber :
      FiberStore → String → ℕ → RecoveryStatus → Option StateRecord → FiberReply
  restore_fiber s k now recovered target = restore_best s k now target
  restore_fiber s k now noop target = (got (FiberStore.get is_object s k), s)
  restore_fiber s k now unavailable target = (got (FiberStore.get is_object s k), s)

  -- reclaim_expired, if a task is named
  abbrev pub reclaimed : WorkCoordinator → Option String → ℕ → ℕ × WorkCoordinator
  reclaimed s none now = (0, s)
  reclaimed s (some t) now = WorkCoordinator.reclaim_expired s now

  abbrev pub requeued : Option Actions → String → String → ℕ × Option Actions
  requeued none action owner = (0, none)
  requeued (some s) action owner = if (action == "") || (owner == "") then (0, some s) else (
    if (Actions.requeue s action owner).0 then 1 else 0,
    some ((Actions.requeue s action owner).1),
  )

  -- the calls of `work` and `actions`, and the report
  unfoldable pub conclude :
      RecoveryCoordinator
      → String
      → Option String
      → ℕ
      → String
      → String
      → RecoveryResult
      → FiberReply
      → Result FiberStore.Error DurableRecoveryReport × RecoveryCoordinator
  conclude s fiber_id task_id now action owner recovery (err e, fibers) =
      (err e, record s { fibers = fibers })
  conclude s fiber_id task_id now action owner recovery (ok fiber, fibers) =
      let work = reclaimed s.work task_id now in
      let actions = requeued s.actions action owner in
      (
        ok (record {
          run_id = recovery.run_id;
          fiber_id = fiber_id;
          task_id = task_id;
          best_state_id = recovery.to_state_id;
          best_score = recovery.best_score;
          fiber = fiber;
          recovery_status = recovery.status;
          reclaimed_leases = work.0;
          recovery_revision = recovery.revision;
          requeued_actions = actions.0;
        }),
        record s { fibers = fibers; work = work.1; actions = actions.1 },
      )

  -- An absent action_id or action_owner is the empty text. A state_id is never empty, so a recovered
  -- result has a to_state_id that counts as true.
  unfoldable pub recover_after_crash :
      RecoveryCoordinator
      → String
      → String
      → Option String
      → ℕ
      → String
      → String
      → String
      → String
      → Result FiberStore.Error DurableRecoveryReport × RecoveryCoordinator
  recover_after_crash s run_id fiber_id task_id now reason fresh action owner =
      let (recovery, best) = BestState.recover s.best run_id reason fresh now in
      conclude (record s { best = best }) fiber_id task_id now action owner recovery
        (restore_fiber s.fibers fiber_id now recovery.status (BestState.best best run_id))
