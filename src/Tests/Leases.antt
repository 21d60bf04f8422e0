-- ===== src/Tests/Leases.antt =====
-- Leases of noesis_harness/coordination.py on concrete tables.
use noesis_harness_agent_mem.Coordination.Leases.Races.{acquire_write, acquire_read}
use noesis_harness_agent_mem.Prelude.{
  text_ne, ℕ, String, ◌≡◌, refl, ◌≢◌, inr, true, false, some, List, [], ◌∷◌, arith, eq_iff,
}
use noesis_harness_agent_mem.Table.{fetchone, count, update, delete}
use noesis_harness_agent_mem.Coordination.Leases.{
  Lease, Leases, Call, acquire_call, renew_call, release_call, cleanup_call, active, has_key,
  live_of, init, acquire, renew, release, cleanup, step, run, Claim,
}
use noesis_harness_agent_mem.Coordination.Leases.Keys.{IsKeyed}
use noesis_harness_agent_mem.Coordination.Leases.Held.{Holds, AllSpare}
use noesis_harness_agent_mem.Coordination.Leases.Exclusion.{
  acquire-exclusive, acquire-reclaims, Over,
}
use noesis_harness_agent_mem.Coordination.Leases.Holders.{
  OnePerHolder, acquire-OnePerHolder, renew-two_live,
}

program : Unit {0}
unfolding init acquire renew release cleanup step run fetchone count update delete
program = tt

abbrev no_rows : Leases
no_rows = record { ttl = 600; one_lease_per_holder = false; rows = [] }

init_caps : (init 7200 false []).ttl ≡ 3600
unfolding program
init_caps = refl

-- tests/test_leases: a second agent is refused, and gets the task after the expiry
refused_then_given :
    ((acquire (acquire no_rows "lead-42" "worker-1" 100).1 "lead-42" "worker-2" 200).0.ok ≡ false)
    × ((acquire (acquire no_rows "lead-42" "worker-1" 100).1 "lead-42" "worker-2" 700).0.ok ≡ true)
unfolding program
refused_then_given = (refl, refl)

abbrev calls : List (ℕ × Call)
calls =
    (200, acquire_call "lead-42" "worker-2")
    ∷ (300, release_call "lead-42" "worker-2")
    ∷ (640, renew_call "lead-42" "worker-1")
    ∷ (650, cleanup_call)
    ∷ []

workers_differ : ◌≢◌ {A = String} "worker-2" "worker-1"
workers_differ = text_ne "worker-2" "worker-1" refl

calls-AllSpare :
    AllSpare "lead-42" "worker-1" (acquire no_rows "lead-42" "worker-1" 100).0.expires_at calls
unfolding program
calls-AllSpare = (
  (omega arith, tt),
  ((omega arith, λ h. workers_differ h.1), ((omega arith, tt), ((omega arith, tt), tt))),
)

acquire-exclusive_example :
    (acquire (run (acquire no_rows "lead-42" "worker-1" 100).1 calls) "lead-42" "worker-2" 699).0.ok
    ≡ false
unfolding program
acquire-exclusive_example =
    acquire-exclusive no_rows "lead-42" "worker-1" "worker-2" 100 699 calls refl calls-AllSpare
      (omega arith) workers_differ

abbrev stale : Lease
stale = record {
  task_key = "lead-42";
  holder = "worker-1";
  acquired_at = 100;
  expires_at = 700;
  status = active;
}

abbrev fresh : Lease
fresh = record {
  task_key = "lead-43";
  holder = "worker-1";
  acquired_at = 750;
  expires_at = 1350;
  status = active;
}

abbrev two_rows : Leases
two_rows = record { ttl = 600; one_lease_per_holder = true; rows = stale ∷ fresh ∷ [] }

abbrev one_row : Leases
one_row = record { ttl = 600; one_lease_per_holder = false; rows = stale ∷ [] }

stale_Over : (r : Lease) → fetchone (has_key "lead-42") one_row.rows ≡ some r → Over 800 r
unfolding fetchone
stale_Over r e = inr (inr (ground (arith, e)))

acquire-reclaims_example :
    ((acquire one_row "lead-42" "worker-2" 800).0.ok ≡ true)
    × ((acquire one_row "lead-42" "worker-2" 800).0.renewed ≡ some true)
    × ((acquire one_row "lead-42" "worker-2" 800).0.expires_at ≡ 1400)
    × Holds (acquire one_row "lead-42" "worker-2" 800).1 "lead-42" "worker-2" 1400
acquire-reclaims_example = acquire-reclaims one_row "lead-42" "worker-2" 800 refl stale_Over

abbrev raced : Claim × Leases
raced =
    acquire_write (acquire_read one_row "lead-42" "worker-1" 800) one_row "lead-42" "worker-1" 800

tasks_differ : ◌≢◌ {A = String} "lead-43" "lead-42"
tasks_differ = text_ne "lead-43" "lead-42" refl

two_rows-IsKeyed : IsKeyed two_rows
unfolding count
two_rows-IsKeyed k = ground (arith, eq_iff "lead-42" k, eq_iff "lead-43" k, tasks_differ)

two_rows-OnePerHolder : OnePerHolder 800 two_rows
unfolding count
two_rows-OnePerHolder j = ground arith

acquire-OnePerHolder_example : OnePerHolder 800 (acquire two_rows "lead-44" "worker-2" 800).1
acquire-OnePerHolder_example =
    acquire-OnePerHolder two_rows "lead-44" "worker-2" 800 refl two_rows-IsKeyed
      two_rows-OnePerHolder

renew-two_live_example :
    ((renew two_rows "lead-42" "worker-1" 800).0 ≡ true)
    × ((y : Lease) × (fetchone (has_key "lead-42") (renew two_rows "lead-42" "worker-1" 800).1.rows
          ≡ some y)
        × (live_of "worker-1" 800 y ≡ true))
    × (fetchone (has_key "lead-43") (renew two_rows "lead-42" "worker-1" 800).1.rows ≡ some fresh)
unfolding program
renew-two_live_example =
    renew-two_live two_rows "lead-42" "lead-43" "worker-1" 800 stale fresh tasks_differ
      (omega arith) refl refl refl (omega arith) refl refl
