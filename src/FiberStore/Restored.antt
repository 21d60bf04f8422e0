-- ===== src/FiberStore/Restored.antt =====
-- Which fibers `recoverable` of noesis_harness/fibers.py offers.
use mathlib.Core.Path.{subst}
use noesis_harness_agent_mem.Prelude.{
  ok, err, if◌then◌else◌, Bool-cases, All, Result, ok-ne-err, ℕ, String, ◌≡◌, refl, sym, inl, inr,
  Bool, true, false, List, [], ◌∷◌, arith, ◌==◌, eq_iff,
}
use noesis_harness_agent_mem.Table.{fetchone, update}
use noesis_harness_agent_mem.Table.Finding.{fetchone_sound}
use noesis_harness_agent_mem.Table.Holding.{All-imp, All-updated, All-selected}
use noesis_harness_agent_mem.Table.Sorting.{All-order_by}
use noesis_harness_agent_mem.FiberStore.{
  Fiber, FiberStore, Error, Event, fiber_restored, refused, has_id, get, restore, restore_at,
  set_restored, audited, is_recoverable, recoverable, collect, after_read, kept,
}
use noesis_harness_agent_mem.FiberStore.Checkpoints.{get-ok}

abbrev Other : String → Fiber → Type 0
Other k r = has_id k r ≡ false

module _ (is_object : String → Bool) (k : String) (now : ℕ) where
  kept-Other :
      (s : FiberStore) (j : String) (o : Result Error Fiber) (rs : List Fiber)
      → get is_object s j ≡ o
      → (j == k) ≡ false
      → All (Other k) rs
      → All (Other k) (kept o rs)
  kept-Other s j (err e) rs got apart h = h
  kept-Other s j (ok r) rs got apart h =
      let found = (get-ok is_object (fetchone (has_id j) s.rows) r (unfold get in got)).0 in
      (
        ground (
          arith,
          fetchone_sound (has_id j) s.rows r found,
          eq_iff r.fiber_id j,
          eq_iff r.fiber_id k,
          eq_iff j k,
          apart,
        ),
        h,
      )

  collect-Other :
      (s : FiberStore) (rs : List Fiber)
      → All (Other k) rs
      → All (Other k) (collect is_object s rs now).0
  unfolding collect
  collect-Other s [] h = tt
  collect-Other s (r ∷ rs) h =
      kept-Other s r.fiber_id (get is_object s r.fiber_id) _ refl h.0
        (collect-Other (after_read is_object s r.fiber_id now (get is_object s r.fiber_id)) rs h.1)

  recoverable-Other :
      (s : FiberStore)
      → All (λ r. has_id k r ≡ true → is_recoverable r.status ≡ false) s.rows
      → All (Other k) (recoverable is_object s now).0
  unfolding recoverable
  recoverable-Other s h = collect-Other s _ (
      All-order_by _ (Other k) _ (
        All-selected (Other k) (λ r. is_recoverable r.status) s.rows
          (All-imp (λ r f c. ground (arith, f, c)) s.rows h)))

  audited-rows :
      (s : FiberStore) (e : Event) (o : Result Error Fiber)
      → (audited is_object s e o).1.rows ≡ s.rows
  audited-rows s e (err x) = refl
  audited-rows s e (ok r) = elim (Bool-cases (refused s.audit e)) [
    | inl raises ↦ rw raises refl
    | inr takes ↦ rw takes refl
  ]

  restore_at-rows :
      (s : FiberStore) (step at : ℕ) (state : String) (o : Result Error Fiber) (r : Fiber)
      → (restore_at is_object s k step state at o).0 ≡ ok r
      → (restore_at is_object s k step state at o).1.rows
        ≡ update (has_id k) (set_restored step state at) s.rows
  unfolding restore_at
  restore_at-rows s step at state (err e) r done = absurd (ok-ne-err r e (sym done))
  restore_at-rows s step at state (ok x) r done =
      let s' : FiberStore = record s {
        rows = update (has_id k) (set_restored step state at) s.rows;
      } in
      audited-rows s' (fiber_restored k x.step step) (get is_object s' k)

  all_restored :
      (step at : ℕ) (state : String) (rows : List Fiber)
      → All
          (λ x.
            has_id k (if has_id k x then set_restored step state at x else x) ≡ true
            → is_recoverable (if has_id k x then set_restored step state at x else x).status
              ≡ false)
          rows
  all_restored step at state [] = tt
  all_restored step at state (x ∷ rows) = (λ h. ground (arith, h), all_restored step at state rows)

  -- A fiber that was restored is not among those that the next `recoverable` offers for a resume.
  pub recoverable-restore :
      (s : FiberStore) (step at : ℕ) (state : String) (r : Fiber)
      → (restore is_object s k step state at).0 ≡ ok r
      → All
          (λ x. (x.fiber_id == k) ≡ false)
          (recoverable is_object (restore is_object s k step state at).1 now).0
  recoverable-restore s step at state r done =
      recoverable-Other (restore is_object s k step state at).1 (
        unfold restore in
        subst (All (λ x. has_id k x ≡ true → is_recoverable x.status ≡ false))
          (sym (restore_at-rows s step at state (get is_object s k) r (unfold restore in done)))
          (All-updated (λ x. has_id k x ≡ true → is_recoverable x.status ≡ false) (has_id k)
            (set_restored step state at) s.rows (all_restored step at state s.rows)))
