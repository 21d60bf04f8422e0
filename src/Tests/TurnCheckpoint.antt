-- ===== src/Tests/TurnCheckpoint.antt =====
-- The turn checkpoints of noesis_harness/turn_checkpoint.py on a concrete run.
use noesis_harness_agent_mem.Prelude.{
  ok, err, if◌then◌else◌, concat, ℕ, String, ◌≡◌, refl, Bool, true, false, not, List, [], ◌∷◌, ◌==◌,
}
use noesis_harness_agent_mem.Table.{select, fetchone, update, order_by, insert_by}
use noesis_harness_agent_mem.TurnCheckpoint.Recover.{interrupt, recover}
use noesis_harness_agent_mem.TurnCheckpoint.Verify.{verify_chain, verify_rows}
use noesis_harness_agent_mem.TurnCheckpoint.{
  TurnCheckpoint, Store, turn_not_sequential, checkpoint_corrupt, checkpoint_replay_conflict, begin,
  commit_turn, latest, decode,
}
use noesis_harness_agent_mem.TurnCheckpoint.Runs.{
  Call, begin_call, recover_call, commit_call, interrupt_call, run, step, run-verify_chain,
}

program : Unit {0}
unfolding begin commit_turn interrupt recover latest decode verify_chain verify_rows run step select
    fetchone update order_by insert_by
program = tt

abbrev object : String → Bool
object t = not (t == "[]")

abbrev sha : String → String
sha t = concat "#" t

abbrev seal_state : TurnCheckpoint → String
seal_state p = p.state

abbrev seal : TurnCheckpoint → String
seal p = p.state_digest

-- json.loads of a state whose keys come back in another order
abbrev reload : String → String
reload t = if t == "{2,10}" then "{10,2}" else t

abbrev calls : List (ℕ × Call)
calls =
    (1, begin_call "r")
    ∷ (2, commit_call "r" 0 "{}" "a" false)
    ∷ (3, begin_call "q")
    ∷ (4, interrupt_call "r" "power")
    ∷ (5, recover_call "r")
    ∷ (6, commit_call "r" 1 "{1}" "b" true)
    ∷ (7, commit_call "r" 3 "{2}" "c" false)
    ∷ []

abbrev ended : Store
ended = run object sha seal reload (record { checkpoints = []; runs = [] }) calls

skipped :
    (commit_turn object sha seal reload ended "r" 3 "{2}" "c" false 8).0 ≡ err turn_not_sequential
unfolding program
skipped = refl

-- an old turn may be committed again as it is
again :
    (commit_turn object sha seal reload ended "r" 0 "{9}" "a" false 8).0
    ≡ err checkpoint_replay_conflict
unfolding program
again = refl

run-verify_chain_example : verify_chain object sha seal ended "r" ≡ ok true
run-verify_chain_example =
    run-verify_chain object sha seal reload calls "r" (refl, refl, (refl, refl, (refl, refl, tt)))

-- a run whose state is read back as another one is lost
abbrev odd : Store
odd =
    run object sha seal_state reload (record { checkpoints = []; runs = [] })
      ((1, begin_call "r") ∷ (2, commit_call "r" 0 "{2,10}" "a" false) ∷ [])

corrupt : verify_chain object sha seal_state odd "r" ≡ err checkpoint_corrupt
unfolding program
corrupt = refl
