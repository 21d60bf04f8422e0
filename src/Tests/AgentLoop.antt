-- ===== src/Tests/AgentLoop.antt =====
-- The agent loop of noesis_harness/agent_loop.py with concrete collaborators.
use noesis_harness_agent_mem.Prelude.{
  ltb, eqb, if◌then◌else◌, ℕ, suc, ◌≡◌, refl, true, false, none, some, List, [], ◌∷◌,
}
use noesis_harness_agent_mem.AgentLoop.{
  raised, returned, flag, absent, Harness, Step, stop, next, Status, done, lease_error, Call,
}
use noesis_harness_agent_mem.AgentLoop.Running.{
  released, renewed, close, saved, remember, spent, charge, timed, judged, acted, checked, filled,
  claimed, continue, turns_from, run,
}
use noesis_harness_agent_mem.AgentLoop.Calls.{Good, held}
use noesis_harness_agent_mem.AgentLoop.Leasing.{is_stop, run-Good}

program : Unit {0}
unfolding released renewed close saved remember spent charge timed judged acted checked filled
    claimed continue turns_from run held
program = tt

-- the world counts the leases that were asked for; the agent is done in its second turn, and the
-- third request of a lease raises
abbrev lucky : ℕ → Harness ℕ
lucky good = record {
  agent_id = "worker-1";
  max_turns = 3;
  acquire = λ k w. (
    if ltb w good
        then returned (some (record { ok = true; holder = "worker-1" }))
        else raised "OperationalError",
    suc w,
  );
  release = λ k w. (returned tt, w);
  renew = λ k w. (returned tt, w);
  pack = λ q w. (returned (some (record { ok = true; tokens = some 10 })), w);
  check = λ a w. (returned (some true), w);
  act = λ c w. (
    returned (
        some
          (record { done = if eqb w 2 then flag true else absent; output = "x"; memory = "fact" })),
    w,
  );
  judge = λ os w. (returned (some (flag true)), w);
  clock = λ w. (returned 7, w);
  spend = none;
  save = λ t w. (returned tt, w);
  events = none;
}

abbrev status_of : Step ℕ → List Status
status_of (stop (raised e) s) = []
status_of (stop (returned r) s) = r.status ∷ []
status_of (next s) = []

abbrev calls_of : Step ℕ → List Call
calls_of (stop r s) = s.calls
calls_of (next s) = s.calls

second_done :
    (status_of (run (lucky 5) "t" "q" 0) ≡ done ∷ [])
    × (held (calls_of (run (lucky 5) "t" "q" 0)) ≡ false)
unfolding program
second_done = (refl, refl)

-- a lease that cannot be renewed in the second turn is kept from the first
lease_kept :
    (status_of (run (lucky 1) "t" "q" 0) ≡ lease_error ∷ [])
    × (held (calls_of (run (lucky 1) "t" "q" 0)) ≡ true)
unfolding program
lease_kept = (refl, refl)

run-Good_example : Good 3 (run (lucky 5) "t" "q" 0) × (is_stop (run (lucky 5) "t" "q" 0) ≡ true)
run-Good_example = run-Good (lucky 5) "t" "q" 0
