-- ===== src/Tests/FiberStore.antt =====
-- The checkpoints of noesis_harness/fibers.py on concrete tables.
use noesis_harness_agent_mem.Prelude.{
  ok, err, All, ℕ, zero, suc, String, ◌≡◌, refl, sym, ap, Bool, true, false, ◌||◌, some, [], ◌==◌,
}
use noesis_harness_agent_mem.Table.{select, fetchone, update, order_by}
use noesis_harness_agent_mem.FiberStore.{
  FiberStore, Fiber, Event, Status, refused, fiber_checkpoint, fiber_restored, fiber_interrupted,
  audit_error, Outcome, raised, stepped, runner_error, checkpoint, checkpoint_at, restore,
  restore_at, resume, resume_at, resume_running, attempted, interrupt, quarantine, get, recoverable,
  collect, register, restored,
}
use noesis_harness_agent_mem.FiberStore.Checkpoints.{checkpoint_of}
use noesis_harness_agent_mem.FiberStore.Resuming.{resume-checkpoint_of}
use noesis_harness_agent_mem.FiberStore.Restored.{recoverable-restore}

program : Unit {0}
unfolding checkpoint checkpoint_at restore restore_at resume resume_at resume_running attempted
    interrupt quarantine get recoverable collect register select fetchone update order_by
program = tt

-- texts that start a JSON object
abbrev object : String → Bool
object t = (t == "{}") || (t == "{1}")

abbrev empty : FiberStore
empty = record { audit = some (record { refuses = λ es e. false; events = [] }); rows = [] }

abbrev one : FiberStore
one = (checkpoint object (register empty "n" "{}" "f" "" 1).1 "f" 3 "{1}" false 2).1

saved_once : checkpoint_of "f" one.rows ≡ some (3, "{1}")
unfolding program
saved_once = refl

-- a runner that raises after its first step
abbrev runner : ℕ → String → String → Outcome
runner zero state payload = stepped 1 "{}" false
runner (suc step) state payload = raised "boom"

abbrev next_of : Outcome → String
next_of (raised e) = "{}"
next_of (stepped step state finished) = state

runner-object :
    (n : ℕ) (state payload : String) (m : ℕ) (next : String) (finished : Bool)
    → runner n state payload ≡ stepped m next finished
    → object next ≡ true
runner-object zero state payload m next finished e = ap object (sym (ap next_of e))
runner-object (suc n) state payload m next finished e = cc

failing : (resume object one "f" runner 4).0 ≡ err (runner_error "boom")
unfolding program
failing = refl

one_takes : (n : ℕ) (status : Status) → refused one.audit (fiber_checkpoint "f" n status) ≡ false
unfolding program
one_takes n status = refl

resume-checkpoint_of_example :
    checkpoint_of "f" (resume object one "f" runner 4).1.rows ≡ checkpoint_of "f" one.rows
resume-checkpoint_of_example =
    resume-checkpoint_of object "f" 4 (runner_error "boom") "f" runner runner-object one one_takes
      failing

-- an audit that raises at the event of a checkpoint, when the row is already written
abbrev is_checkpoint : Event → Bool
is_checkpoint (fiber_checkpoint k step status) = true
is_checkpoint (fiber_restored k step at) = false
is_checkpoint (fiber_interrupted k step text) = false

abbrev failing_audit : FiberStore
failing_audit =
    (register
      (record {
        audit = some (record { refuses = λ es e. is_checkpoint e; events = [] });
        rows = [];
      })
      "n" "{}" "f" "" 1).1

moved :
    ((resume object failing_audit "f" runner 4).0 ≡ err audit_error)
    × (checkpoint_of "f" failing_audit.rows ≡ some (0, "{}"))
    × (checkpoint_of "f" (resume object failing_audit "f" runner 4).1.rows ≡ some (1, "{}"))
unfolding program
moved = (refl, refl, refl)

abbrev back : Fiber
back = record {
  fiber_id = "f";
  name = "n";
  status = restored;
  step = 2;
  state = "{}";
  payload = "{}";
  attempt = 1;
  error = "";
  updated_at = 5;
}

restores : (restore object one "f" 2 "{}" 5).0 ≡ ok back
unfolding program
restores = refl

recoverable-restore_example :
    All
      (λ x. (x.fiber_id == "f") ≡ false)
      (recoverable object (restore object one "f" 2 "{}" 5).1 6).0
recoverable-restore_example = recoverable-restore object "f" 6 one 2 5 "{}" back restores
