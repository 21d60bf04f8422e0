-- ===== src/Recovery/Restoring.antt =====
-- What `recover_after_crash` of noesis_harness/recovery.py restores and what it leaves alone.

use noesis_harness_agent_mem.Prelude.{
  ok, err, Bool-cases, Result, ok_injective, ok-ne-err, ℕ, String, ◌≡◌, refl, sym, ap, ap₂, ◌∙◌,
  inl, inr, Bool, true, Option, some,
}
use noesis_harness_agent_mem.Table.{fetchone, update}
use noesis_harness_agent_mem.Table.Finding.{fetchone_sound, fetchone-update}
use noesis_harness_agent_mem.BestState
use noesis_harness_agent_mem.BestState.{
  StateRecord, RecoveryStatus, RecoveryResult, recovered, noop, unavailable,
}
use noesis_harness_agent_mem.FiberStore
use noesis_harness_agent_mem.FiberStore.{
  FiberStore, Fiber, has_id, get, restore, restore_at, set_restored, refused, fiber_restored,
}
use noesis_harness_agent_mem.FiberStore.Checkpoints.{checkpoint_of, saved, get-ok}
use noesis_harness_agent_mem.Recovery.{
  RecoveryCoordinator, DurableRecoveryReport, FiberReply, restored, got, restore_best,
  restore_fiber, conclude, recover_after_crash,
}

module _ (is_object : String → Bool) where
  audited-rows :
      (s : FiberStore) (e : FiberStore.Event) (o : Result FiberStore.Error Fiber)
      → (FiberStore.audited is_object s e o).1.rows ≡ s.rows
  audited-rows s e (err x) = refl
  audited-rows s e (ok r) = elim (Bool-cases (refused s.audit e)) [
    | inl raises ↦ rw raises refl
    | inr takes ↦ rw takes refl
  ]

  restore_at-checkpoint_of :
      (s : FiberStore) (k : String) (step : ℕ) (state : String) (now : ℕ)
      (o : Result FiberStore.Error Fiber) (r : Fiber)
      → get is_object s k ≡ o
      → (restore_at is_object s k step state now o).0 ≡ ok r
      → checkpoint_of k (restore_at is_object s k step state now o).1.rows ≡ some (step, state)
  restore_at-checkpoint_of s k step state now (err e) r got done =
      absurd (ok-ne-err r e (sym (unfold restore_at in done)))
  restore_at-checkpoint_of s k step state now (ok x) r got done =
      let found = (get-ok is_object (fetchone (has_id k) s.rows) x (unfold get in got)).0 in
      let here : has_id k x ≡ true = fetchone_sound (has_id k) s.rows x found in
      let e : fetchone (has_id k) (update (has_id k) (set_restored step state now) s.rows)
          ≡ some (set_restored step state now x) =
        fetchone-update (has_id k) (has_id k) (set_restored step state now) s.rows (λ x _. refl)
        ∙ (rw found (rw here refl)) in
      let s' : FiberStore = record s {
        rows = update (has_id k) (set_restored step state now) s.rows;
      } in
      unfold restore_at in
      ap (checkpoint_of k) (audited-rows s' (fiber_restored k x.step step) (get is_object s' k))
      ∙ ap saved e

  restored-ok :
      (o : Result FiberStore.Error Fiber × FiberStore) (f : Option Fiber)
      → (restored o).0 ≡ ok f
      → (r : Fiber) × (o.0 ≡ ok r)
  restored-ok (ok r, s) f e = (r, refl)
  restored-ok (err x, s) f e = absurd (ok-ne-err f x (sym e))

  restored-store : (o : Result FiberStore.Error Fiber × FiberStore) → (restored o).1 ≡ o.1
  restored-store (ok r, s) = refl
  restored-store (err x, s) = refl

  module _ (fiber_step : String → ℕ) where
    restore_fiber-checkpoint_of :
        (s : FiberStore) (k : String) (now : ℕ) (t : StateRecord) (f : Option Fiber)
        → (restore_fiber is_object fiber_step s k now recovered (some t)).0 ≡ ok f
        → checkpoint_of k (restore_fiber is_object fiber_step s k now recovered (some t)).1.rows
          ≡ some (fiber_step t.metadata, t.payload)
    unfolding restore_fiber restore_best
    restore_fiber-checkpoint_of s k now t f done =
        let (r, fine) =
          restored-ok (restore is_object s k (fiber_step t.metadata) t.payload now) f done in
        ap (λ (x : FiberStore). checkpoint_of k x.rows)
          (restored-store (restore is_object s k (fiber_step t.metadata) t.payload now))
        ∙ (unfold restore in
            restore_at-checkpoint_of s k (fiber_step t.metadata) t.payload now (get is_object s k) r
              refl (unfold restore in fine))

    conclude-fibers :
        (s : RecoveryCoordinator) (k : String) (task : Option String) (now : ℕ)
        (action owner : String) (recovery : RecoveryResult) (reply : FiberReply)
        → (conclude is_object fiber_step s k task now action owner recovery reply).1.fibers
          ≡ reply.1
    unfolding conclude
    conclude-fibers s k task now action owner recovery (err e, fibers) = refl
    conclude-fibers s k task now action owner recovery (ok fiber, fibers) = refl

    conclude-ok :
        (s : RecoveryCoordinator) (k : String) (task : Option String) (now : ℕ)
        (action owner : String) (recovery : RecoveryResult) (reply : FiberReply)
        (report : DurableRecoveryReport)
        → (conclude is_object fiber_step s k task now action owner recovery reply).0 ≡ ok report
        → (f : Option Fiber) × (reply.0 ≡ ok f) × (recovery.status ≡ report.recovery_status)
    unfolding conclude
    conclude-ok s k task now action owner recovery (err e, fibers) report done =
        absurd (ok-ne-err report e (sym done))
    conclude-ok s k task now action owner recovery (ok fiber, fibers) report done = (
      fiber,
      refl,
      ap (λ (r : DurableRecoveryReport). r.recovery_status) (ok_injective _ report done),
    )

    -- Where `recover_after_crash` reports a recovery, the fiber stands at the step and the state of the
    -- run's best verified state, as `best` gives it after the rollback.
    pub recover_after_crash-checkpoint_of :
        (s : RecoveryCoordinator) (run k : String) (task : Option String) (now : ℕ)
        (reason fresh action owner : String) (report : DurableRecoveryReport) (t : StateRecord)
        → (recover_after_crash is_object fiber_step s run k task now reason fresh action owner).0
          ≡ ok report
        → report.recovery_status ≡ recovered
        → BestState.best (BestState.recover s.best run reason fresh now).1 run ≡ some t
        → checkpoint_of k
            (recover_after_crash is_object fiber_step s run k task now reason fresh action
              owner).1.fibers.rows
          ≡ some (fiber_step t.metadata, t.payload)
    unfolding recover_after_crash
    recover_after_crash-checkpoint_of s run k task now reason fresh action owner report t done
          status best =
        let recovery = (BestState.recover s.best run reason fresh now).0 in
        let after : RecoveryCoordinator = record s {
          best = (BestState.recover s.best run reason fresh now).1;
        } in
        let reply =
          restore_fiber is_object fiber_step s.fibers k now recovery.status
            (BestState.best after.best run) in
        let (f, fine, same) =
          conclude-ok after k task now action owner recovery reply report done in
        let shape : reply ≡ restore_fiber is_object fiber_step s.fibers k now recovered (some t) =
          ap₂ (λ st o. restore_fiber is_object fiber_step s.fibers k now st o) (same ∙ status)
            best in
        ap (λ (x : FiberStore). checkpoint_of k x.rows)
          (conclude-fibers after k task now action owner recovery reply)
        ∙ ap (λ (x : FiberReply). checkpoint_of k x.1.rows) shape
        ∙ restore_fiber-checkpoint_of s.fibers k now t f
            (ap (λ (x : FiberReply). x.0) (sym shape) ∙ fine)
