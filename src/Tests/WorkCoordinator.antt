-- ===== src/Tests/WorkCoordinator.antt =====
-- The coordinator of noesis_harness/orchestration.py on concrete tables.
use noesis_harness_agent_mem.Prelude.{
  ok, text_ne, ℕ, String, ◌≡◌, refl, ◌≢◌, false, none, some, List, [], ◌∷◌, arith, eq_iff,
}
use noesis_harness_agent_mem.Table.{select, fetchone, count, update, order_by}
use noesis_harness_agent_mem.WorkCoordinator.{
  Item, WorkClaim, WorkCoordinator, has_id, add, deps_done, ready, claim_rows, claim, heartbeat,
  complete, reclaim_expired, step, run, Call, claim_call, complete_call, reclaim_call, done,
}
use noesis_harness_agent_mem.WorkCoordinator.Claiming.{Keyed, Granted, claim-Granted}
use noesis_harness_agent_mem.WorkCoordinator.Progress.{claim-finds}
use noesis_harness_agent_mem.WorkCoordinator.Ownership.{AllSpare}
use noesis_harness_agent_mem.WorkCoordinator.Exclusion.{
  hands_out, claim-exclusive, complete-refused,
}
use noesis_harness_agent_mem.WorkCoordinator.Completed.{run-keeps_done}

program : Unit {0}
unfolding add deps_done ready claim_rows claim heartbeat complete reclaim_expired step run select
    fetchone count update order_by
program = tt

abbrev digest : String → String
digest body = body

abbrev empty : WorkCoordinator
empty = record { audit = none; rows = [] }

abbrev two : WorkCoordinator
two = (add (add empty "b" ("a" ∷ []) "shared").1 "a" [] "code").1

two-Keyed : Keyed two.rows
unfolding program
two-Keyed k = ground (arith, eq_iff "a" k, eq_iff "b" k, text_ne "a" "b" refl)

abbrev first : WorkClaim
first = record { task_id = "a"; agent_id = "worker-1"; lease_until = 110; attempt = 1 }

abbrev claimed_two : WorkCoordinator
claimed_two = (claim two "worker-1" ("code" ∷ []) 100 10).1

claims_a : (claim two "worker-1" ("code" ∷ []) 100 10).0 ≡ ok (some first)
unfolding program
claims_a = refl

-- `b` waits for `a`
blocked_b : (claim claimed_two "worker-2" ("code" ∷ []) 100 20).0 ≡ ok none
unfolding program
blocked_b = refl

claim-Granted_example : Granted two.rows ("code" ∷ []) "worker-1" 100 10 first claimed_two.rows
claim-Granted_example = claim-Granted two "worker-1" ("code" ∷ []) 100 10 first two-Keyed claims_a

claim-finds_example :
    (c : WorkClaim) × ((claim two "worker-1" ("code" ∷ []) 100 10).0 ≡ ok (some c))
unfolding program
claim-finds_example =
    claim-finds two "worker-1" ("code" ∷ []) 100 10 two-Keyed (text_ne "worker-1" "" refl)
      (omega arith) (omega arith)

abbrev calls : List (ℕ × Call)
calls =
    (20, claim_call "worker-2" ("code" ∷ []) 100)
    ∷ (30, complete_call "a" "worker-2" "{}")
    ∷ (40, reclaim_call)
    ∷ []

workers_differ : ◌≢◌ {A = String} "worker-2" "worker-1"
workers_differ = text_ne "worker-2" "worker-1" refl

calls-AllSpare : AllSpare "a" "worker-1" 110 calls
calls-AllSpare = (omega arith, (workers_differ, (omega arith, tt)))

claim-exclusive_example :
    hands_out "a" (claim (run digest claimed_two calls) "worker-2" ("code" ∷ []) 100 110).0 ≡ false
claim-exclusive_example =
    claim-exclusive digest two "worker-1" ("code" ∷ []) 100 10 first calls two-Keyed claims_a
      calls-AllSpare "worker-2" ("code" ∷ []) 100 110 (omega arith)

complete-refused_example :
    ((complete digest (run digest claimed_two calls) "a" "worker-2" "{}").0 ≡ false)
    × ((complete digest (run digest claimed_two calls) "a" "worker-2" "{}").1.rows
        ≡ (run digest claimed_two calls).rows)
complete-refused_example =
    complete-refused digest two "worker-1" ("code" ∷ []) 100 10 first calls two-Keyed claims_a
      calls-AllSpare "worker-2" "{}" workers_differ

abbrev finished : WorkCoordinator
finished = (complete digest claimed_two "a" "worker-1" "{}").1

abbrev done_row : Item
done_row = record {
  task_id = "a";
  deps = [];
  scope = "code";
  status = done;
  owner = "worker-1";
  lease_until = 0;
  attempt = 1;
  result_digest = "{}";
  result = "{}";
}

run-keeps_done_example : fetchone (has_id "a") (run digest finished calls).rows ≡ some done_row
unfolding program
run-keeps_done_example = run-keeps_done "a" done_row refl digest finished calls refl
