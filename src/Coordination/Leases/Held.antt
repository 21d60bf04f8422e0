-- ===== src/Coordination/Leases/Held.antt =====
-- A lease in force (Leases.acquire, renew, release, cleanup): what each call does to it.
use mathlib.Core.Option.{some-injective}
use noesis_harness_agent_mem.Prelude.{
  ℕ, ◌+◌, ◌≤◌, ◌<◌, String, ◌≡◌, ◌≢◌, refl, ap, sym, ◌∙◌, not, ◌||◌, Bool, true, false, Option,
  none, some, List, [], ◌∷◌, arith, max, ◌==◌, eq_iff, eq_refl, Bool-cases, inl, inr, All,
}
use noesis_harness_agent_mem.Table.{fetchone, update, delete}
use noesis_harness_agent_mem.Table.Finding.{
  updated, fetchone_sound, fetchone-append, fetchone-update, fetchone-delete, fetchone-delete_self,
}
use noesis_harness_agent_mem.Coordination.Leases.{
  Lease, Leases, Call, acquire_call, renew_call, release_call, cleanup_call, has_key, grant, active,
  released, claim_row, guarded, other_lease, renew_row, release_row, cleanup, is_stale, step, run,
  is_active, is_live, expired,
}

-- The row at `t` is an active lease of `h` that does not expire before `e`.
pub record Holds (s : Leases) (t h : String) (e : ℕ) : Type 0 where
  pub row : Lease
  pub found : fetchone (has_key t) s.rows ≡ some row
  pub holder : row.holder ≡ h
  pub live : row.status ≡ active
  pub lasts : e ≤ row.expires_at

-- every call but a release of the lease by its holder
abbrev pub Spares : String → String → Call → Type 0
Spares t h (release_call k j) = (k ≡ t) × (j ≡ h) → ⊥
Spares t h (acquire_call k j) = Unit
Spares t h (renew_call k j) = Unit
Spares t h cleanup_call = Unit

pub grant-Holds_self :
    (s : Leases) (t h : String) (now : ℕ) → Holds (grant s t h now).1 t h (now + s.ttl)
unfolding grant
grant-Holds_self s t h now = record {
  row = record {
    task_key = t;
    holder = h;
    acquired_at = now;
    expires_at = now + s.ttl;
    status = active;
  };
  found =
      rw (fetchone-append (has_key t) (delete (has_key t) s.rows), fetchone-delete_self)
        (unfold fetchone in rw eq_refl);
  holder = refl;
  live = refl;
  lasts = omega arith;
}

keys_differ : (k t : String) → k ≢ t → (r : Lease) → has_key k r ≡ true → has_key t r ≡ false
keys_differ k t ne r h = ground (arith, eq_iff r.task_key k, eq_iff r.task_key t)

-- a grant at another key
grant-Holds_ne :
    (s : Leases) (k j t h : String) (now e : ℕ)
    → k ≢ t
    → Holds s t h e
    → Holds (grant s k j now).1 t h e
unfolding grant
grant-Holds_ne s k j t h now e ne held = record {
  row = held.row;
  found =
      rw (fetchone-append (has_key t) (delete (has_key k) s.rows))
        (rw (fetchone-delete (has_key t) (has_key k) s.rows (keys_differ k t ne)) (rw held.found));
  holder = held.holder;
  live = held.live;
  lasts = held.lasts;
}

-- an UPDATE that keeps the keys, and what it writes into the held row if it selects that row
update-Holds :
    (s : Leases) (q : Lease → Bool) (f : Lease → Lease) (t h : String) (e : ℕ)
    (held : Holds s t h e)
    → ((r : Lease) → (f r).task_key ≡ r.task_key)
    → (q held.row ≡ true
        → ((f held.row).holder ≡ h)
          × ((f held.row).status ≡ active)
          × (e ≤ (f held.row).expires_at))
    → Holds (record s { rows = update q f s.rows }) t h e
update-Holds s q f t h e held same kept = record {
  row = updated q f held.row;
  found =
      rw (fetchone-update (has_key t) q f s.rows (λ r _. ap (λ j. j == t) (same r)))
        (rw held.found);
  holder = ground (arith, kept, held.holder);
  live = ground (arith, kept, held.live);
  lasts = ground (arith, kept, held.lasts);
}

module _ (s : Leases) (k t h : String) (now e : ℕ) (early : now < e) (held : Holds s t h e) where
  -- where no live row stands, the key is another one
  key_ne_of_none : fetchone (has_key k) s.rows ≡ none → k ≢ t
  key_ne_of_none f eq = cc (held.found, ap (λ (x : String). fetchone (has_key x) s.rows) eq)

  -- a row fetched at the key of the held row is the held row
  row_of_key : (r : Lease) → fetchone (has_key k) s.rows ≡ some r → k ≡ t → r ≡ held.row
  row_of_key r f eq =
      some-injective _ _ (sym f ∙ ap (λ (x : String). fetchone (has_key x) s.rows) eq ∙ held.found)

  key_of_hit : has_key k held.row ≡ true → k ≡ t
  key_of_hit hit =
      sym ((eq_iff held.row.task_key k).0 hit)
      ∙ (eq_iff held.row.task_key t).0 (fetchone_sound (has_key t) s.rows held.row held.found)

  held-is_live : is_live now held.row ≡ true
  held-is_live = ground (arith, held.live, held.lasts)

  key_ne_of_dead :
      (r : Lease) → fetchone (has_key k) s.rows ≡ some r → is_live now r ≡ false → k ≢ t
  key_ne_of_dead r f dead eq = cc (held-is_live, ap (is_live now) (row_of_key r f eq), dead)

  claim_row-Holds :
      (j : String) (o : Option Lease)
      → fetchone (has_key k) s.rows ≡ o
      → Holds (claim_row s k j now o).1 t h e
  unfolding claim_row
  claim_row-Holds j none f = grant-Holds_ne s k j t h now e (key_ne_of_none f) held
  claim_row-Holds j (some r) f = elim (Bool-cases (is_live now r)) [
    | inl live ↦ rw live held
    | inr dead ↦ rw dead (grant-Holds_ne s k j t h now e (key_ne_of_dead r f dead) held)
  ]

  guarded-Holds : (j : String) (o : Option Lease) → Holds (guarded s k j now o).1 t h e
  unfolding guarded
  guarded-Holds j none = claim_row-Holds j (fetchone (has_key k) s.rows) refl
  guarded-Holds j (some r) = held

  -- a renewal of the held row never shortens it
  renew_row-Holds :
      (j : String) (o : Option Lease)
      → fetchone (has_key k) s.rows ≡ o
      → Holds (renew_row s k j now o).1 t h e
  unfolding renew_row
  renew_row-Holds j none f = held
  renew_row-Holds j (some r) f =
      elim (Bool-cases (not (r.holder == j) || not (is_active r.status))) [
        | inl refused ↦ rw refused held
        | inr granted ↦ rw granted (
            update-Holds s (has_key k)
              (λ (x : Lease). record x { expires_at = max now r.expires_at + s.ttl }) t h e held
              (λ x. refl)
              (λ hit. (
                held.holder,
                held.live,
                omega (
                  arith,
                  held.lasts,
                  ap (λ (x : Lease). x.expires_at) (row_of_key r f (key_of_hit hit)),
                ),
              )))
      ]

  release_row-Holds :
      (j : String) (o : Option Lease)
      → ((k ≡ t) × (j ≡ h) → ⊥)
      → fetchone (has_key k) s.rows ≡ o
      → Holds (release_row s k j o).1 t h e
  unfolding release_row
  release_row-Holds j none spared f = held
  release_row-Holds j (some r) spared f = elim (Bool-cases (r.holder == j)) [
    | inr other ↦ rw other held
    | inl own ↦ rw own (
        update-Holds s (has_key k) (λ (x : Lease). record x { status = released }) t h e held
          (λ x. refl)
          (λ hit. absurd (
            spared (
              key_of_hit hit,
              sym ((eq_iff r.holder j).0 own)
                  ∙ ap (λ (x : Lease). x.holder) (row_of_key r f (key_of_hit hit))
                  ∙ held.holder,
            ))))
  ]

  cleanup-Holds : Holds (cleanup s now).1 t h e
  unfolding cleanup
  cleanup-Holds =
      update-Holds s (is_stale now) (λ (x : Lease). record x { status = expired }) t h e held
        (λ x. refl) (λ hit. absurd (ground (arith, held.live, held.lasts)))

-- A call before `e` that is not the holder's release leaves the lease in force.
step-Holds :
    (s : Leases) (t h : String) (now e : ℕ) (c : Call)
    → now < e
    → Spares t h c
    → Holds s t h e
    → Holds (step s now c) t h e
unfolding step
step-Holds s t h now e (acquire_call k j) early sp held =
    guarded-Holds s k t h now e early held j (other_lease s k j now)
step-Holds s t h now e (renew_call k j) early sp held =
    renew_row-Holds s k t h now e early held j (fetchone (has_key k) s.rows) refl
step-Holds s t h now e (release_call k j) early sp held =
    release_row-Holds s k t h now e early held j (fetchone (has_key k) s.rows) sp refl
step-Holds s t h now e cleanup_call early sp held = cleanup-Holds s t t h now e early held

-- calls made before `e`, none of them the holder's release of the task
abbrev pub AllSpare : String → String → ℕ → List (ℕ × Call) → Type 0
AllSpare t h e = All (λ c. (c.0 < e) × Spares t h c.1)

pub run-Holds :
    (s : Leases) (t h : String) (e : ℕ) (calls : List (ℕ × Call))
    → AllSpare t h e calls
    → Holds s t h e
    → Holds (run s calls) t h e
unfolding run
run-Holds s t h e [] sp held = held
run-Holds s t h e ((now, c) ∷ cs) sp held =
    run-Holds (step s now c) t h e cs sp.1 (step-Holds s t h now e c sp.0.0 sp.0.1 held)
