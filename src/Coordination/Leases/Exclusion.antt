-- ===== src/Coordination/Leases/Exclusion.antt =====
-- One task, one agent: while a lease is live and not released, nobody else gets the task through
-- the same object (Leases.acquire of noesis_harness/coordination.py). The races of two objects on one
-- file are in Races.antt.
use mathlib.Core.Path.{subst}
use noesis_harness_agent_mem.Prelude.{
  Bool-cases, ℕ, ◌+◌, ◌≤◌, ◌<◌, String, ◌≡◌, refl, sym, ◌≢◌, ◌⊎◌, inl, inr, true, false, Option,
  none, some, List, arith, eq_iff,
}
use noesis_harness_agent_mem.Table.{fetchone}
use noesis_harness_agent_mem.Coordination.Leases.{
  acquire, Lease, Leases, Call, has_key, grant, claim_row, guarded, other_lease, run, is_live,
  released, expired,
}
use noesis_harness_agent_mem.Coordination.Leases.Held.{Holds, AllSpare, run-Holds, grant-Holds_self}

-- A successful `acquire` leaves the task held until the expiry that it reports.
claim_row-granted :
    (s : Leases) (t h : String) (now : ℕ) (o : Option Lease)
    → fetchone (has_key t) s.rows ≡ o
    → (claim_row s t h now o).0.ok ≡ true
    → Holds (claim_row s t h now o).1 t h (claim_row s t h now o).0.expires_at
unfolding claim_row
claim_row-granted s t h now none f g = grant-Holds_self s t h now
claim_row-granted s t h now (some r) f g = elim (Bool-cases (is_live now r)) [
  | inr dead ↦ rw dead (unfold grant in grant-Holds_self s t h now)
  | inl live ↦ rw live (record {
    row = r;
    found = f;
    holder = (eq_iff r.holder h).0 (rw live at g);
    live = ground arith;
    lasts = omega arith;
  })
]

guarded-granted :
    (s : Leases) (t h : String) (now : ℕ) (o : Option Lease)
    → (guarded s t h now o).0.ok ≡ true
    → Holds (guarded s t h now o).1 t h (guarded s t h now o).0.expires_at
unfolding guarded
guarded-granted s t h now none g = claim_row-granted s t h now (fetchone (has_key t) s.rows) refl g
guarded-granted s t h now (some r) g = cc

acquire-granted :
    (s : Leases) (t h : String) (now : ℕ)
    → (acquire s t h now).0.ok ≡ true
    → Holds (acquire s t h now).1 t h (acquire s t h now).0.expires_at
unfolding acquire
acquire-granted s t h now g = guarded-granted s t h now (other_lease s t h now) g

guarded-refused :
    (s : Leases) (t h j : String) (now e : ℕ) (o : Option Lease)
    → now < e
    → j ≢ h
    → Holds s t h e
    → (guarded s t j now o).0.ok ≡ false
unfolding guarded claim_row
guarded-refused s t h j now e (some r) early ne held = refl
guarded-refused s t h j now e none early ne held =
    rw held.found (ground (arith, held.live, held.lasts, held.holder, eq_iff held.row.holder j))

-- Where all calls go through one Leases object, whose lock makes each of them one step: if `acquire`
-- gives an agent a task, then until the expiry that it reports, and after any calls by anybody other
-- than that agent's own release of the task, every other agent's `acquire` of the task is refused.
pub acquire-exclusive :
    (s : Leases) (t h j : String) (now later : ℕ) (calls : List (ℕ × Call))
    → (acquire s t h now).0.ok ≡ true
    → AllSpare t h (acquire s t h now).0.expires_at calls
    → later < (acquire s t h now).0.expires_at
    → j ≢ h
    → (acquire (run (acquire s t h now).1 calls) t j later).0.ok ≡ false
acquire-exclusive s t h j now later calls g sp early ne =
    unfold acquire in
    guarded-refused (run (acquire s t h now).1 calls) t h j later (acquire s t h now).0.expires_at
      (other_lease (run (acquire s t h now).1 calls) t j later) early ne
      (run-Holds (acquire s t h now).1 t h (acquire s t h now).0.expires_at calls sp
        (acquire-granted s t h now g))

claim_row-eq-grant :
    (s : Leases) (t h : String) (now : ℕ) (o : Option Lease)
    → ((r : Lease) → o ≡ some r → is_live now r ≡ false)
    → claim_row s t h now o ≡ grant s t h now
unfolding claim_row
claim_row-eq-grant s t h now none dead = refl
claim_row-eq-grant s t h now (some r) dead = rw (dead r refl)

pub other_lease-eq-none :
    (s : Leases) (t h : String) (now : ℕ)
    → s.one_lease_per_holder ≡ false
    → other_lease s t h now ≡ none
unfolding other_lease
other_lease-eq-none s t h now single = simp single

acquire-eq-grant :
    (s : Leases) (t h : String) (now : ℕ)
    → s.one_lease_per_holder ≡ false
    → ((r : Lease) → fetchone (has_key t) s.rows ≡ some r → is_live now r ≡ false)
    → acquire s t h now ≡ grant s t h now
unfolding acquire
acquire-eq-grant s t h now single dead =
    subst (λ o. guarded s t h now o ≡ grant s t h now) (sym (other_lease-eq-none s t h now single))
      (claim_row-eq-grant s t h now (fetchone (has_key t) s.rows) dead)

-- a row that holds its task no more
abbrev pub Over : ℕ → Lease → Type 0
Over now r = (r.status ≡ released) ⊎ (r.status ≡ expired) ⊎ (r.expires_at ≤ now)

pub Over-is_live : (now : ℕ) (r : Lease) → Over now r → is_live now r ≡ false
Over-is_live now r (inl e) = rw e refl
Over-is_live now r (inr (inl e)) = rw e refl
Over-is_live now r (inr (inr e)) = ground (arith, e)

-- A task with no row, or whose row is released, marked as expired, or past its expiry, goes to any
-- agent that asks (where one lease for each holder is not demanded), with a full term from now.
pub acquire-reclaims :
    (s : Leases) (t h : String) (now : ℕ)
    → s.one_lease_per_holder ≡ false
    → ((r : Lease) → fetchone (has_key t) s.rows ≡ some r → Over now r)
    → ((acquire s t h now).0.ok ≡ true)
      × ((acquire s t h now).0.renewed ≡ some true)
      × ((acquire s t h now).0.expires_at ≡ now + s.ttl)
      × Holds (acquire s t h now).1 t h (now + s.ttl)
acquire-reclaims s t h now single over =
    let e = acquire-eq-grant s t h now single (λ r f. Over-is_live now r (over r f)) in
    rw e (unfold grant in (refl, refl, refl, grant-Holds_self s t h now))
