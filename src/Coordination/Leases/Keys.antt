-- ===== src/Coordination/Leases/Keys.antt =====
-- The primary key: a task has at most one row, whatever is called.
use mathlib.Core.Path.{subst}
use noesis_harness_agent_mem.Prelude.{
  ℕ, ◌+◌, ◌≤◌, String, ◌≡◌, refl, ap, max, Bool, true, Option, none, some, List, [], ◌∷◌, arith,
  ◌==◌, eq_iff,
}
use noesis_harness_agent_mem.Table.{fetchone, count, update, delete}
use noesis_harness_agent_mem.Table.Counting.{
  count-append, count-update, count-delete-le, count-delete_self,
}
use noesis_harness_agent_mem.Coordination.Leases.{
  Lease, Leases, Call, released, acquire_call, renew_call, release_call, cleanup_call, has_key,
  grant, claim_row, acquire, renew_row, release_row, step, run,
}

abbrev pub IsKeyed : Leases → Type 0
IsKeyed s = (k : String) → count (has_key k) s.rows ≤ 1

-- after the DELETE at `t` the key is free
count-deleted :
    (t k : String) (rows : List Lease)
    → (t == k) ≡ true
    → count (has_key k) (delete (has_key t) rows) ≡ 0
count-deleted t k rows e =
    subst (λ j. count (has_key j) (delete (has_key t) rows) ≡ 0) ((eq_iff t k).0 e)
      (count-delete_self (has_key t) rows)

grant-IsKeyed : (s : Leases) (t h : String) (now : ℕ) → IsKeyed s → IsKeyed (grant s t h now).1
unfolding grant count
grant-IsKeyed s t h now keyed k = rw (count-append (has_key k) (delete (has_key t) s.rows)) (
    ground
      (arith, keyed k, count-deleted t k s.rows, count-delete-le (has_key k) (has_key t) s.rows))

claim_row-IsKeyed :
    (s : Leases) (t h : String) (now : ℕ) (o : Option Lease)
    → IsKeyed s
    → IsKeyed (claim_row s t h now o).1
unfolding claim_row
claim_row-IsKeyed s t h now none keyed k = grant-IsKeyed s t h now keyed k
claim_row-IsKeyed s t h now (some r) keyed k =
    ground (arith, keyed k, grant-IsKeyed s t h now keyed k)

pub acquire-IsKeyed :
    (s : Leases) (t h : String) (now : ℕ) → IsKeyed s → IsKeyed (acquire s t h now).1
unfolding acquire
acquire-IsKeyed s t h now keyed k =
    ground (arith, keyed k, claim_row-IsKeyed s t h now (fetchone (has_key t) s.rows) keyed k)

-- An UPDATE that leaves the keys alone.
update-IsKeyed :
    (s : Leases) (q : Lease → Bool) (f : Lease → Lease)
    → ((r : Lease) → (f r).task_key ≡ r.task_key)
    → IsKeyed s
    → IsKeyed (record s { rows = update q f s.rows })
update-IsKeyed s q f same keyed k =
    rw (count-update (has_key k) q f s.rows (λ r _. ap (λ j. j == k) (same r))) (keyed k)

renew_row-IsKeyed :
    (s : Leases) (t h : String) (now : ℕ) (o : Option Lease)
    → IsKeyed s
    → IsKeyed (renew_row s t h now o).1
unfolding renew_row
renew_row-IsKeyed s t h now none keyed k = keyed k
renew_row-IsKeyed s t h now (some r) keyed k = ground (
  arith,
  keyed k,
  update-IsKeyed s (has_key t)
      (λ (x : Lease). record x { expires_at = max now r.expires_at + s.ttl }) (λ x. refl) keyed k,
)

release_row-IsKeyed :
    (s : Leases) (t h : String) (o : Option Lease) → IsKeyed s → IsKeyed (release_row s t h o).1
unfolding release_row
release_row-IsKeyed s t h none keyed k = keyed k
release_row-IsKeyed s t h (some r) keyed k = ground (
  arith,
  keyed k,
  update-IsKeyed s (has_key t) (λ (x : Lease). record x { status = released }) (λ x. refl) keyed k,
)

step-IsKeyed : (s : Leases) (now : ℕ) (c : Call) → IsKeyed s → IsKeyed (step s now c)
unfolding step
step-IsKeyed s now (acquire_call t h) keyed = acquire-IsKeyed s t h now keyed
step-IsKeyed s now (renew_call t h) keyed =
    renew_row-IsKeyed s t h now (fetchone (has_key t) s.rows) keyed
step-IsKeyed s now (release_call t h) keyed =
    release_row-IsKeyed s t h (fetchone (has_key t) s.rows) keyed
step-IsKeyed s now cleanup_call keyed = update-IsKeyed s _ _ (λ r. refl) keyed

-- Whatever calls are made, in any order and at any readings of the clock, a table with at most one
-- row for each task stays one.
pub run-IsKeyed : (s : Leases) (calls : List (ℕ × Call)) → IsKeyed s → IsKeyed (run s calls)
unfolding run
run-IsKeyed s [] keyed = keyed
run-IsKeyed s ((now, c) ∷ cs) keyed = run-IsKeyed (step s now c) cs (step-IsKeyed s now c keyed)
