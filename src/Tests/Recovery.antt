-- ===== src/Tests/Recovery.antt =====
-- The recovery of noesis_harness/recovery.py on concrete stores.
use noesis_harness_agent_mem.Prelude.{
  ok, Result, ℕ, String, ◌≡◌, refl, Bool, ◌||◌, none, some, [], ◌==◌,
}
use noesis_harness_agent_mem.Table.{select, fetchone, update, order_by}
use noesis_harness_agent_mem.BestState
use noesis_harness_agent_mem.BestState.{BestStateStore, StateRecord, record_candidate, recovered}
use noesis_harness_agent_mem.FiberStore
use noesis_harness_agent_mem.FiberStore.{FiberStore, restored}
use noesis_harness_agent_mem.FiberStore.Checkpoints.{checkpoint_of}
use noesis_harness_agent_mem.Recovery.{
  RecoveryCoordinator, DurableRecoveryReport, restore_best, restore_fiber, conclude,
  recover_after_crash,
}
use noesis_harness_agent_mem.Recovery.Restoring.{recover_after_crash-checkpoint_of}

program : Unit {0}
unfolding BestState.ensure_run BestState.decide BestState.record_row BestState.record_state
    BestState.record_candidate BestState.rollback BestState.roll_run BestState.roll_best
    BestState.roll_to BestState.recover BestState.best FiberStore.checkpoint
    FiberStore.checkpoint_at FiberStore.restore FiberStore.restore_at FiberStore.get
    FiberStore.register restore_best restore_fiber conclude recover_after_crash select fetchone
    update order_by
program = tt

abbrev object : String → Bool
object t = (t == "{}") || (t == "{1}")

abbrev step_of : String → ℕ
step_of t = 7

abbrev first : BestStateStore
first =
    (record_candidate (λ t. t) (record { runs = []; states = []; rollbacks = [] }) "r" (some 5)
      "{1}" "passed" "" "{}" "a" 1).1

abbrev best : BestStateStore
best = (record_candidate (λ t. t) first "r" (some 3) "{}" "passed" "" "{}" "b" 2).1

abbrev fibers : FiberStore
fibers = (FiberStore.register (record { audit = none; rows = [] }) "n" "{}" "f" "" 1).1

abbrev system : RecoveryCoordinator
system = record {
  best = best;
  fibers = fibers;
  work = record { audit = none; rows = [] };
  actions = none;
}

abbrev outcome : Result FiberStore.Error DurableRecoveryReport × RecoveryCoordinator
outcome = recover_after_crash object step_of system "r" "f" none 9 "crash" "e" "" ""

abbrev the_report : DurableRecoveryReport
the_report = record {
  run_id = "r";
  fiber_id = "f";
  task_id = none;
  best_state_id = some "a";
  best_score = some 5;
  fiber = some (record {
    fiber_id = "f";
    name = "n";
    status = restored;
    step = 7;
    state = "{1}";
    payload = "{}";
    attempt = 1;
    error = "";
    updated_at = 9;
  });
  recovery_status = recovered;
  reclaimed_leases = 0;
  recovery_revision = 3;
  requeued_actions = 0;
}

abbrev target : StateRecord
target = record {
  state_id = "a";
  run_id = "r";
  score = 5;
  payload = "{1}";
  artifact_digest = "{1}";
  verifier_status = "passed";
  metadata = "{}";
  created_at = 1;
}

reports : outcome.0 ≡ ok the_report
unfolding program
reports = refl

stands : BestState.best (BestState.recover best "r" "crash" "e" 9).1 "r" ≡ some target
unfolding program
stands = refl

recover_after_crash-checkpoint_of_example :
    checkpoint_of "f"
      (recover_after_crash object step_of system "r" "f" none 9 "crash" "e" "" "").1.fibers.rows
    ≡ some (7, "{1}")
recover_after_crash-checkpoint_of_example =
    recover_after_crash-checkpoint_of object step_of system "r" "f" none 9 "crash" "e" "" ""
      the_report target reports refl stands
