-- ===== src/FiberStore/Resuming.antt =====
-- A step of noesis_harness/fibers.py that fails leaves every checkpoint as it was.
use noesis_harness_agent_mem.Prelude.{
  ok, err, Bool-cases, Result, ok-ne-err, ℕ, String, ◌≡◌, refl, ap, ◌∙◌, inl, inr, Bool, true,
  false,
}
use noesis_harness_agent_mem.Table.{update}
use noesis_harness_agent_mem.FiberStore.{
  Fiber, FiberStore, Error, key_error, audit_error, fiber_corrupt, value_error, runner_error,
  interrupted, corrupted, Outcome, raised, stepped, has_id, get, quarantine, checkpoint, interrupt,
  message, checked, attempted, resume_running, resume_at, resume, set_running, is_completed,
  refused, Status, fiber_checkpoint, fiber_interrupted,
}
use noesis_harness_agent_mem.FiberStore.Checkpoints.{
  checkpoint_of, update-checkpoint_of, checkpoint-refused,
}

module _ (is_object : String → Bool) (k : String) (now : ℕ) (e : Error) (j : String) where
  interrupt-checkpoint_of :
      (s : FiberStore) (step : ℕ) (text : String) (x : Error)
      → checkpoint_of j (interrupt is_object s k step text x now).1.rows ≡ checkpoint_of j s.rows
  unfolding interrupt
  interrupt-checkpoint_of s step text x =
      let same =
        update-checkpoint_of j k
          (λ r. record r { status = interrupted; error = text; updated_at = now }) s.rows
          (λ r. refl) (λ r. refl) in
      elim (Bool-cases (refused s.audit (fiber_interrupted k step text))) [
        | inl raises ↦ rw raises same
        | inr takes ↦ rw takes same
      ]

  -- the audit takes the events of the checkpoints of this fiber
  abbrev pub Takes : FiberStore → Type 0
  Takes s = (n : ℕ) (status : Status) → refused s.audit (fiber_checkpoint k n status) ≡ false

  checked-checkpoint_of :
      (s : FiberStore) (step : ℕ) (o : Result Error Fiber × FiberStore)
      → ((x : Error) → o.0 ≡ err x → o.1 ≡ s)
      → (checked is_object k step now o).0 ≡ err e
      → checkpoint_of j (checked is_object k step now o).1.rows ≡ checkpoint_of j s.rows
  checked-checkpoint_of s step (ok r, s') same failed = absurd (ok-ne-err r e failed)
  checked-checkpoint_of s step (err x, s') same failed =
      interrupt-checkpoint_of s' step (message x) x
      ∙ ap (λ (t : FiberStore). checkpoint_of j t.rows) (same x refl)

  attempted-checkpoint_of :
      (s : FiberStore) (step : ℕ) (o : Outcome)
      → Takes s
      → ((step' : ℕ) (state : String) (finished : Bool)
          → o ≡ stepped step' state finished
          → is_object state ≡ true)
      → (attempted is_object s k step now o).0 ≡ err e
      → checkpoint_of j (attempted is_object s k step now o).1.rows ≡ checkpoint_of j s.rows
  unfolding attempted
  attempted-checkpoint_of s step (raised text) takes object failed =
      interrupt-checkpoint_of s step text (runner_error text)
  attempted-checkpoint_of s step (stepped step' state finished) takes object failed =
      checked-checkpoint_of s step (checkpoint is_object s k step' state finished now)
        (λ x refused.
          checkpoint-refused is_object s k step' state finished now x takes
            (object step' state finished refl) refused)
        failed

  module _ (runner : ℕ → String → String → Outcome)
      (object : (n : ℕ) (state payload : String) (m : ℕ) (next : String) (finished : Bool)
        → runner n state payload ≡ stepped m next finished
        → is_object next ≡ true) where
    resume_running-checkpoint_of :
        (s : FiberStore) (o : Result Error Fiber)
        → Takes s
        → (resume_running is_object s k runner now o).0 ≡ err e
        → checkpoint_of j (resume_running is_object s k runner now o).1.rows
          ≡ checkpoint_of j s.rows
    unfolding resume_running
    resume_running-checkpoint_of s (err x) takes failed = refl
    resume_running-checkpoint_of s (ok r) takes failed =
        attempted-checkpoint_of s r.step (runner r.step r.state r.payload) takes
          (λ m next finished h. object r.step r.state r.payload m next finished h) failed

    quarantine-checkpoint_of :
        (s : FiberStore)
        → checkpoint_of j (quarantine is_object s k now).rows ≡ checkpoint_of j s.rows
    unfolding quarantine
    quarantine-checkpoint_of s =
        update-checkpoint_of j k
          (λ r. record r { status = corrupted; error = "checkpoint_corrupt"; updated_at = now })
          s.rows (λ r. refl) (λ r. refl)

    resume_at-checkpoint_of :
        (s : FiberStore) (o : Result Error Fiber)
        → Takes s
        → (resume_at is_object s k runner now o).0 ≡ err e
        → checkpoint_of j (resume_at is_object s k runner now o).1.rows ≡ checkpoint_of j s.rows
    resume_at-checkpoint_of s (err key_error) takes failed = unfold resume_at in refl
    resume_at-checkpoint_of s (err fiber_corrupt) takes failed =
        unfold resume_at in quarantine-checkpoint_of s
    resume_at-checkpoint_of s (err audit_error) takes failed =
        unfold resume_at in quarantine-checkpoint_of s
    resume_at-checkpoint_of s (err value_error) takes failed =
        unfold resume_at in quarantine-checkpoint_of s
    resume_at-checkpoint_of s (err (runner_error text)) takes failed =
        unfold resume_at in quarantine-checkpoint_of s
    resume_at-checkpoint_of s (ok r) takes failed = elim (Bool-cases (is_completed r.status)) [
      | inl finished ↦ unfold resume_at in rw finished refl
      | inr open_yet ↦
          let s' : FiberStore = record s { rows = update (has_id k) (set_running now) s.rows } in
          unfold resume_at in
          rw open_yet (
            resume_running-checkpoint_of s' (get is_object s' k) takes
              (unfold resume_at in rw open_yet at failed)
            ∙ update-checkpoint_of j k (set_running now) s.rows (λ x. refl) (λ x. refl))
    ]

    -- A `resume` that raises (no such fiber, an unreadable checkpoint, a runner that raises or goes
    -- backwards, an audit that does not take the interruption) leaves the step and the state of
    -- every fiber as they were, where the states that the runner returns are dicts and the audit, if
    -- any, takes the event of a checkpoint, which is only recorded after the row was written.
    pub resume-checkpoint_of :
        (s : FiberStore)
        → ((n : ℕ) (status : Status) → refused s.audit (fiber_checkpoint k n status) ≡ false)
        → (resume is_object s k runner now).0 ≡ err e
        → checkpoint_of j (resume is_object s k runner now).1.rows ≡ checkpoint_of j s.rows
    resume-checkpoint_of s takes failed =
        unfold resume in
        resume_at-checkpoint_of s (get is_object s k) takes (unfold resume in failed)
