-- ===== src/TurnCheckpoint/Recover.antt =====
-- interrupt and recover of class DurableTurnCheckpointStore of noesis_harness/turn_checkpoint.py.
use noesis_harness_agent_mem.Table.{update}
use noesis_harness_agent_mem.Prelude.{
  ok, err, if◌then◌else◌, Result, String, Bool, true, false, Option, none, some, ◌==◌,
}
use noesis_harness_agent_mem.TurnCheckpoint.{
  Error, Saved, TurnCheckpoint, Store, Status, running, interrupted, corrupted,
  checkpoint_quarantined, interrupt_reason_required, decode, latest, last_row, has_run,
}

abbrev pub set_status : Store → String → Status → Store
set_status s k status = record s {
  runs = update (has_run k) (λ r. record r { status = status }) s.runs;
}

abbrev pub interrupt_at :
    Store → String → String → Result Error TurnCheckpoint → Result Error TurnCheckpoint × Store
interrupt_at s k reason (err e) = (err e, s)
interrupt_at s k reason (ok current) =
    if reason == ""
    then (err interrupt_reason_required, s)
    else (ok (record current { run_id = k; status = interrupted }), set_status s k interrupted)

abbrev pub is_corrupted : Status → Bool
is_corrupted corrupted = true
is_corrupted status = false

abbrev pub resumed :
    Store → String → TurnCheckpoint → Option Error → Result Error TurnCheckpoint × Store
resumed s k current (some e) = (err e, s)
resumed s k current none =
    (ok (record current { run_id = k; status = running }), set_status s k running)

module _ (is_object : String → Bool) (sha : String → String) (seal : TurnCheckpoint → String) where
  unfoldable pub interrupt : Store → String → String → Result Error TurnCheckpoint × Store
  interrupt s k reason = interrupt_at s k reason (latest is_object sha seal s k)

  abbrev pub checked : Option Saved → Option Error
  checked none = none
  checked (some row) = elim (decode is_object sha seal row) [ ok p ↦ none | err e ↦ some e ]

  abbrev pub recover_at :
      Store → String → Result Error TurnCheckpoint → Result Error TurnCheckpoint × Store
  recover_at s k (err e) = (err e, s)
  recover_at s k (ok current) =
      if is_corrupted current.status
      then (err checkpoint_quarantined, s)
      else resumed s k current (checked (last_row s k))

  unfoldable pub recover : Store → String → Result Error TurnCheckpoint × Store
  recover s k = recover_at s k (latest is_object sha seal s k)
