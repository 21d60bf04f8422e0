-- ===== src/Tests/BestState.antt =====
-- The best-state ledger of noesis_harness/best_state.py on concrete inputs.
use noesis_harness_agent_mem.Prelude.{if◌then◌else◌, String, ◌≡◌, refl, none, some, [], ◌==◌}
use noesis_harness_agent_mem.Table.{fetchone, update}
use noesis_harness_agent_mem.BestState.{
  BestStateStore, ensure_run, decide, record_row, record_state, record_candidate, rollback,
  roll_run, roll_best, roll_to, recovered,
}
use noesis_harness_agent_mem.BestState.Updates.{best_score, greater, verified}
use noesis_harness_agent_mem.BestState.Best.{record-best_score}

program : Unit {0}
unfolding ensure_run decide record_row record_state record_candidate rollback roll_run roll_best
    roll_to fetchone update
program = tt

abbrev digest : String → String
digest body = body

abbrev empty : BestStateStore
empty = record { runs = []; states = []; rollbacks = [] }

abbrev one : BestStateStore
one = (record_candidate digest empty "r" (some 5) "{}" "passed" "" "{}" "a" 1).1

-- a candidate that failed its verifier does not count, whatever its score
failed_ignored :
    best_score "r" (record_candidate digest one "r" (some 9) "{}" "failed" "" "{}" "b" 2).1.runs
    ≡ some 5
unfolding program
failed_ignored = refl

-- a candidate whose score is no number is refused, and can still be rolled back to
refused_restored :
    (rollback
      (record_candidate digest one "r" none "{}" "passed" "" "{}" "c" 2).1
      "r"
      "c"
      "manual"
      "e"
      3).0.status
    ≡ recovered
unfolding program
refused_restored = refl

record-best_score_example :
    best_score "r" (record_candidate digest one "r" (some 7) "{}" "passed" "" "{}" "b" 2).1.runs ≡ (
      if "r" == "r"
      then greater (best_score "r" one.runs) (verified "passed" (some 7))
      else best_score "r" one.runs)
unfolding program
record-best_score_example =
    record-best_score digest one "r" (some 7) "{}" "passed" "" "{}" "b" 2 "r" refl
