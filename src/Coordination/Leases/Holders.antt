-- ===== src/Coordination/Leases/Holders.antt =====
-- One live lease for each holder (the option `one_lease_per_holder` of Leases.acquire), and what
-- Leases.renew does to it.
use mathlib.Core.Path.{subst}
use noesis_harness_agent_mem.Prelude.{
  ℕ, ◌+◌, ◌≤◌, ◌<◌, String, ◌≡◌, ◌≢◌, refl, ap, not, ◌||◌, Bool, true, false, Option, none, some,
  List, [], ◌∷◌, arith, max, ◌==◌, eq_iff, if◌then◌else◌, Bool-cases, inl, inr,
}
use noesis_harness_agent_mem.Table.{fetchone, count, update, delete}
use noesis_harness_agent_mem.Table.Counting.{
  count-append, count-delete-le, count-eq-zero_of_fetchone, fetchone-eq-none_of_count,
}
use noesis_harness_agent_mem.Table.Finding.{fetchone_sound, fetchone-update}
use noesis_harness_agent_mem.Coordination.Leases.{
  Lease, Leases, has_key, grant, active, claim_row, guarded, other_lease, acquire, renew, is_active,
  is_live, live_of,
}
use noesis_harness_agent_mem.Coordination.Leases.Keys.{IsKeyed}

-- With at most one row where `q` holds, a row there that also has `p` is the one that `q` fetches.
fetchone_unique :
    (p q : Lease → Bool) (rows : List Lease) (r : Lease)
    → count q rows ≤ 1
    → fetchone p rows ≡ some r
    → q r ≡ true
    → fetchone q rows ≡ some r
unfolding fetchone count
fetchone_unique p q [] r one f h = cc
fetchone_unique p q (x ∷ xs) r one f h =
    ground (arith, fetchone_unique p q xs r, fetchone-eq-none_of_count q xs)

count-one-row : (p : Lease → Bool) (r : Lease) → count p (r ∷ []) ≤ 1
unfolding count
count-one-row p r = ground arith

-- no live lease of the holder, or only the one at the task asked for
grant-one_live :
    (s : Leases) (t h : String) (now : ℕ)
    → fetchone (live_of h now) s.rows ≡ none
    → count (live_of h now) (grant s t h now).1.rows ≤ 1
unfolding grant
grant-one_live s t h now f = rw (count-append (live_of h now) (delete (has_key t) s.rows)) (
    omega (
      arith,
      count-delete-le (live_of h now) (has_key t) s.rows,
      count-eq-zero_of_fetchone (live_of h now) s.rows f,
      count-one-row (live_of h now),
    ))

-- a grant to somebody else
grant-live_ne :
    (s : Leases) (t h j : String) (now : ℕ)
    → (h == j) ≡ false
    → count (live_of j now) (grant s t h now).1.rows ≤ count (live_of j now) s.rows
unfolding grant count
grant-live_ne s t h j now ne =
    rw (count-append (live_of j now) (delete (has_key t) s.rows))
      (ground (arith, count-delete-le (live_of j now) (has_key t) s.rows, ne))

-- At the time `now` no holder has two live leases.
abbrev pub OnePerHolder : ℕ → Leases → Type 0
OnePerHolder now s = (j : String) → count (live_of j now) s.rows ≤ 1

grant-OnePerHolder :
    (s : Leases) (t h : String) (now : ℕ)
    → fetchone (live_of h now) s.rows ≡ none
    → OnePerHolder now s
    → OnePerHolder now (grant s t h now).1
grant-OnePerHolder s t h now f one j = elim (Bool-cases (h == j)) [
  | inl own ↦
      subst (λ k. count (live_of k now) (grant s t h now).1.rows ≤ 1) ((eq_iff h j).0 own)
        (grant-one_live s t h now f)
  | inr other ↦ omega (arith, one j, grant-live_ne s t h j now other)
]

claim_row-OnePerHolder :
    (s : Leases) (t h : String) (now : ℕ) (o : Option Lease)
    → fetchone (live_of h now) s.rows ≡ none
    → OnePerHolder now s
    → OnePerHolder now (claim_row s t h now o).1
unfolding claim_row
claim_row-OnePerHolder s t h now none f one j = grant-OnePerHolder s t h now f one j
claim_row-OnePerHolder s t h now (some r) f one j =
    ground (arith, one j, grant-OnePerHolder s t h now f one j)

-- the holder's own live row stands at the task: nothing is written
claim_row-own :
    (s : Leases) (t h : String) (now : ℕ) (r : Lease)
    → is_live now r ≡ true
    → (claim_row s t h now (some r)).1 ≡ s
unfolding claim_row
claim_row-own s t h now r live = rw live

guarded-OnePerHolder :
    (s : Leases) (t h : String) (now : ℕ) (o found : Option Lease)
    → fetchone (live_of h now) s.rows ≡ found
    → o ≡ (elim found [ none ↦ none | some r ↦ if r.task_key == t then none else some r ])
    → IsKeyed s
    → OnePerHolder now s
    → OnePerHolder now (guarded s t h now o).1
unfolding guarded
guarded-OnePerHolder s t h now (some x) found f e keyed one = one
guarded-OnePerHolder s t h now none none f e keyed one =
    claim_row-OnePerHolder s t h now (fetchone (has_key t) s.rows) f one
guarded-OnePerHolder s t h now none (some r) f e keyed one =
    rw (fetchone_unique (live_of h now) (has_key t) s.rows r (keyed t) f (ground arith)) (
      rw (claim_row-own s t h now r (ground (arith, fetchone_sound (live_of h now) s.rows r f)))
        one)

-- With `one_lease_per_holder`, a table keyed by task in which no holder has two live leases stays
-- such after any `acquire`.
pub acquire-OnePerHolder :
    (s : Leases) (t h : String) (now : ℕ)
    → s.one_lease_per_holder ≡ true
    → IsKeyed s
    → OnePerHolder now s
    → OnePerHolder now (acquire s t h now).1
unfolding acquire
acquire-OnePerHolder s t h now flag keyed one =
    guarded-OnePerHolder s t h now (other_lease s t h now) (fetchone (live_of h now) s.rows) refl
      (unfold other_lease in simp flag) keyed one

-- a row that the UPDATE of a renewal leaves alone
fetchone-renewed_ne :
    (k t : String) (f : Lease → Lease) (rows : List Lease) (r : Lease)
    → ((x : Lease) → (f x).task_key ≡ x.task_key)
    → k ≢ t
    → fetchone (has_key k) rows ≡ some r
    → fetchone (has_key k) (update (has_key t) f rows) ≡ some r
fetchone-renewed_ne k t f rows r same ne found =
    rw (fetchone-update (has_key k) (has_key t) f rows (λ x _. ap (λ j. j == k) (same x))) (
      rw found (
        ground (
          arith,
          eq_iff r.task_key t,
          eq_iff r.task_key k,
          fetchone_sound (has_key k) rows r found,
        )))

-- the row that it writes to
fetchone-renewed_self :
    (t : String) (f : Lease → Lease) (rows : List Lease) (r : Lease)
    → ((x : Lease) → (f x).task_key ≡ x.task_key)
    → fetchone (has_key t) rows ≡ some r
    → fetchone (has_key t) (update (has_key t) f rows) ≡ some (f r)
fetchone-renewed_self t f rows r same found =
    rw (fetchone-update (has_key t) (has_key t) f rows (λ x _. ap (λ j. j == t) (same x)))
      (rw found (ground (arith, fetchone_sound (has_key t) rows r found)))

may_renew :
    (r : Lease) (h : String)
    → r.holder ≡ h
    → r.status ≡ active
    → (not (r.holder == h) || not (is_active r.status)) ≡ false
may_renew r h own act = ground (arith, eq_iff r.holder h)

-- `renew` has no such guard: a holder whose lease on one task has run out (and was not reclaimed), and
-- which then took another task, gets both by renewing the first, whatever the option says.
pub renew-two_live :
    (s : Leases) (t k h : String) (now : ℕ) (r x : Lease)
    → k ≢ t
    → 0 < s.ttl
    → fetchone (has_key t) s.rows ≡ some r
    → r.holder ≡ h
    → r.status ≡ active
    → r.expires_at ≤ now
    → fetchone (has_key k) s.rows ≡ some x
    → live_of h now x ≡ true
    → ((renew s t h now).0 ≡ true)
      × ((y : Lease) × (fetchone (has_key t) (renew s t h now).1.rows ≡ some y)
          × (live_of h now y ≡ true))
      × (fetchone (has_key k) (renew s t h now).1.rows ≡ some x)
unfolding renew
renew-two_live s t k h now r x ne term found own act late other live = rw found (
    rw (may_renew r h own act) (
      refl,
      (
        record r { expires_at = max now r.expires_at + s.ttl },
        fetchone-renewed_self t
            (λ (y : Lease). record y { expires_at = max now r.expires_at + s.ttl }) s.rows r
            (λ y. refl) found,
        ground (arith, eq_iff r.holder h),
      ),
      fetchone-renewed_ne k t
          (λ (y : Lease). record y { expires_at = max now r.expires_at + s.ttl }) s.rows x
          (λ y. refl) ne other,
    ))
