-- ===== src/Coordination/Leases/Races.antt =====
-- Leases.acquire of noesis_harness/coordination.py in two steps, as two processes on one database
-- file run it: the SELECTs decide, and the DELETE and INSERT come after them.
use noesis_harness_agent_mem.Table.{fetchone}
use noesis_harness_agent_mem.Coordination.Leases.{
  guarded, Lease, Leases, grant, Claim, acquire, is_live, other_lease, claim_row, has_key,
}
use noesis_harness_agent_mem.Prelude.{
  if◌then◌else◌, Bool-cases, Option-cases, ℕ, String, ◌≡◌, refl, inl, inr, false, Option, none,
  some, ◌==◌,
}

-- what the SELECTs decide: an answer, or `none` to go on to the writes
unfoldable pub answered : Leases → String → String → ℕ → Option Lease → Option Lease → Option Claim
answered s task h now (some r) found = some (record {
  ok = false;
  holder = h;
  expires_at = r.expires_at;
  renewed = none;
  reason = some "holder_lease_active";
})
answered s task h now none none = none
answered s task h now none (some row) =
    if is_live now row
    then some (record {
      ok = row.holder == h;
      holder = row.holder;
      expires_at = row.expires_at;
      renewed = if row.holder == h then some false else none;
      reason = none;
    })
    else none

unfoldable pub acquire_read : Leases → String → String → ℕ → Option Claim
unfolding answered
acquire_read s task h now =
    answered s task h now (other_lease s task h now) (fetchone (has_key task) s.rows)

-- the writes, on the table as it is by then
unfoldable pub acquire_write : Option Claim → Leases → String → String → ℕ → Claim × Leases
acquire_write (some c) s task h now = (c, s)
acquire_write none s task h now = grant s task h now

answered-eq-guarded :
    (s : Leases) (t h : String) (now : ℕ) (o : Option Lease)
    → guarded s t h now o
      ≡ acquire_write (answered s t h now o (fetchone (has_key t) s.rows)) s t h now
unfolding guarded claim_row answered acquire_write
answered-eq-guarded s t h now (some r) = refl
answered-eq-guarded s t h now none = elim (Option-cases (fetchone (has_key t) s.rows)) [
  | inl e ↦ rw e refl
  | inr (r, e) ↦
      rw e (elim (Bool-cases (is_live now r)) [ inl live ↦ rw live refl | inr dead ↦ rw dead refl ])
]

-- With nothing in between, the two steps are `acquire`.
pub acquire-eq-write :
    (s : Leases) (t h : String) (now : ℕ)
    → acquire s t h now ≡ acquire_write (acquire_read s t h now) s t h now
unfolding acquire acquire_read
acquire-eq-write s t h now = answered-eq-guarded s t h now (other_lease s t h now)
