-- ===== src/Coordination/Leases.antt =====
-- class Leases of noesis_harness/coordination.py. A method takes the store and the clock's reading
-- and returns its result beside the new store. That is one step for the calls through one object,
-- whose lock every method holds; sqlite3 opens no transaction before the first write, so two objects
-- on one file may interleave between what a method reads and what it writes (Races.antt).
pub mod Keys
pub mod Held
pub mod Exclusion
pub mod Holders
pub mod Races
use noesis_harness_agent_mem.Prelude.{
  ℕ, suc, ◌+◌, ◌*◌, min, max, String, Bool, true, false, Option, none, some, List, [], ◌∷◌, ◌++◌,
  ◌&&◌, ◌||◌, not, ◌==◌, ltb, leb, if◌then◌else◌,
}
use noesis_harness_agent_mem.Table.{fetchone, count, update, delete}

pub data Status : Type 0 where
  active released expired : Status

pub record Lease : Type 0 where
  pub task_key : String
  pub holder : String
  pub acquired_at : ℕ
  pub expires_at : ℕ
  pub status : Status

pub record Leases : Type 0 where
  pub ttl : ℕ
  pub one_lease_per_holder : Bool
  pub rows : List Lease

-- the dictionary that `acquire` returns; a key that it lacks is `none`
pub record Claim : Type 0 where
  pub ok : Bool
  pub holder : String
  pub expires_at : ℕ
  pub renewed : Option Bool
  pub reason : Option String

abbrev pub max_ttl : ℕ
max_ttl = 60 * 60

-- The table outlives the object: `rows` is what the database file already holds.
unfoldable pub init : ℕ → Bool → List Lease → Leases
init ttl one rows = record { ttl = min ttl max_ttl; one_lease_per_holder = one; rows = rows }

abbrev pub is_active : Status → Bool
is_active active = true
is_active released = false
is_active expired = false

-- WHERE task_key=?
abbrev pub has_key : String → Lease → Bool
has_key k r = r.task_key == k

-- status='active' AND expires_at > now
abbrev pub is_live : ℕ → Lease → Bool
is_live now r = is_active r.status && ltb now r.expires_at

-- WHERE holder=? AND status='active' AND expires_at > ?
abbrev pub live_of : String → ℕ → Lease → Bool
live_of h now r = (r.holder == h) && is_live now r

-- DELETE of what stands at the key, then INSERT OR REPLACE
unfoldable pub grant : Leases → String → String → ℕ → Claim × Leases
grant s task h now =
    let e = now + s.ttl in
    let row : Lease = record {
      task_key = task;
      holder = h;
      acquired_at = now;
      expires_at = e;
      status = active;
    } in
    (
      record { ok = true; holder = h; expires_at = e; renewed = some true; reason = none },
      record s { rows = delete (has_key task) s.rows ++ row ∷ [] },
    )

-- what `acquire` does with the row at the key
unfoldable pub claim_row : Leases → String → String → ℕ → Option Lease → Claim × Leases
unfolding grant
claim_row s task h now none = grant s task h now
claim_row s task h now (some row) =
    if is_live now row
    then (
      record {
        ok = row.holder == h;
        holder = row.holder;
        expires_at = row.expires_at;
        renewed = if row.holder == h then some false else none;
        reason = none;
      },
      s,
    )
    else grant s task h now

-- the guard of `one_lease_per_holder`: another live lease of the holder
unfoldable pub other_lease : Leases → String → String → ℕ → Option Lease
other_lease s task h now =
    if s.one_lease_per_holder
    then (elim (fetchone (live_of h now) s.rows) [
      | none ↦ none
      | some r ↦ if r.task_key == task then none else some r
    ])
    else none

unfoldable pub guarded : Leases → String → String → ℕ → Option Lease → Claim × Leases
unfolding claim_row
guarded s task h now (some r) = (
  record {
    ok = false;
    holder = h;
    expires_at = r.expires_at;
    renewed = none;
    reason = some "holder_lease_active";
  },
  s,
)
guarded s task h now none = claim_row s task h now (fetchone (has_key task) s.rows)

unfoldable pub acquire : Leases → String → String → ℕ → Claim × Leases
unfolding other_lease guarded
acquire s task h now = guarded s task h now (other_lease s task h now)

unfoldable pub renew_row : Leases → String → String → ℕ → Option Lease → Bool × Leases
renew_row s task h now none = (false, s)
renew_row s task h now (some row) =
    if not (row.holder == h) || not (is_active row.status) then (false, s) else (
      true,
      record s {
        rows =
            update (has_key task) (λ r. record r { expires_at = max now row.expires_at + s.ttl })
              s.rows;
      },
    )

unfoldable pub renew : Leases → String → String → ℕ → Bool × Leases
unfolding renew_row
renew s task h now = renew_row s task h now (fetchone (has_key task) s.rows)

unfoldable pub release_row : Leases → String → String → Option Lease → Bool × Leases
release_row s task h none = (false, s)
release_row s task h (some row) =
    if row.holder == h
    then (
      true,
      record s { rows = update (has_key task) (λ r. record r { status = released }) s.rows },
    )
    else (false, s)

unfoldable pub release : Leases → String → String → Bool × Leases
unfolding release_row
release s task h = release_row s task h (fetchone (has_key task) s.rows)

-- WHERE status='active' AND expires_at <= ?
abbrev pub is_stale : ℕ → Lease → Bool
is_stale now r = is_active r.status && leb r.expires_at now

unfoldable pub cleanup : Leases → ℕ → ℕ × Leases
cleanup s now = (
  count (is_stale now) s.rows,
  record s { rows = update (is_stale now) (λ r. record r { status = expired }) s.rows },
)

-- The calls of the class, each at its own reading of the clock.
pub data Call : Type 0 where
  acquire_call renew_call release_call : String → String → Call
  cleanup_call : Call

unfoldable pub step : Leases → ℕ → Call → Leases
unfolding acquire renew release cleanup
step s now (acquire_call t h) = (acquire s t h now).1
step s now (renew_call t h) = (renew s t h now).1
step s now (release_call t h) = (release s t h).1
step s now cleanup_call = (cleanup s now).1

unfoldable pub run : Leases → List (ℕ × Call) → Leases
run s [] = s
run s ((now, c) ∷ cs) = run (step s now c) cs
