-- ===== src/FiberStore/Checkpoints.antt =====
-- What the calls of noesis_harness/fibers.py do to the stored checkpoints.
use mathlib.Core.Path.{subst}
use noesis_harness_agent_mem.Prelude.{
  ok, err, ltb, if◌then◌else◌, Bool-cases, Result, ok_injective, ok-ne-err, ℕ, String, ◌≡◌, refl,
  sym, ap, ◌∙◌, inl, inr, Bool, true, false, ◌&&◌, Option, none, some, List, [], ◌∷◌, arith, ◌==◌,
}
use noesis_harness_agent_mem.Table.{fetchone, update}
use noesis_harness_agent_mem.Table.Finding.{fetchone_sound, fetchone-update}
use noesis_harness_agent_mem.FiberStore.{
  Fiber, FiberStore, Error, fiber_corrupt, has_id, decoded, get, set_checkpoint, checkpoint_at,
  checkpoint, completed, checkpointed, Audit, Status, refused, fiber_checkpoint,
}

-- the step and the state of a fiber
abbrev pub saved : Option Fiber → Option (ℕ × String)
saved none = none
saved (some r) = some (r.step, r.state)

abbrev pub checkpoint_of : String → List Fiber → Option (ℕ × String)
checkpoint_of k rows = saved (fetchone (has_id k) rows)

-- an UPDATE that leaves the checkpoints alone
pub update-checkpoint_of :
    (j k : String) (f : Fiber → Fiber) (rows : List Fiber)
    → ((r : Fiber) → (f r).fiber_id ≡ r.fiber_id)
    → ((r : Fiber) → saved (some (f r)) ≡ saved (some r))
    → checkpoint_of j (update (has_id k) f rows) ≡ checkpoint_of j rows
unfolding fetchone update
update-checkpoint_of j k f [] same keep = refl
update-checkpoint_of j k f (r ∷ rs) same keep = elim (Bool-cases (has_id k r)) [
  | inr other ↦ elim (Bool-cases (has_id j r)) [
    | inl own ↦ rw (other, own) refl
    | inr apart ↦ rw (other, apart) (update-checkpoint_of j k f rs same keep)
  ]
  | inl here ↦ elim (Bool-cases (has_id j r)) [
    | inl own ↦ rw here (rw (same r) (rw own (keep r)))
    | inr apart ↦ rw here (rw (same r) (rw apart (update-checkpoint_of j k f rs same keep)))
  ]
]

module _ (is_object : String → Bool) where
  -- what a successful read tells
  pub get-ok :
      (o : Option Fiber) (r : Fiber)
      → decoded is_object o ≡ ok r
      → (o ≡ some r) × ((is_object r.state && is_object r.payload) ≡ true)
  get-ok none r e = cc
  get-ok (some x) r e = elim (Bool-cases (is_object x.state && is_object x.payload)) [
    | inl fine ↦
        let same : x ≡ r = ok_injective x r (rw fine at e) in
        (ap some same, subst (λ y. (is_object y.state && is_object y.payload) ≡ true) same fine)
    | inr bad ↦ absurd (ok-ne-err r fiber_corrupt (sym (rw bad at e)))
  ]

  -- a row that was read, after an UPDATE of it
  pub get-update :
      (s : FiberStore) (k : String) (f : Fiber → Fiber) (audit : Option Audit) (r : Fiber)
      → get is_object s k ≡ ok r
      → ((x : Fiber) → (f x).fiber_id ≡ x.fiber_id)
      → (is_object (f r).state && is_object (f r).payload) ≡ true
      → get is_object (record { audit = audit; rows = update (has_id k) f s.rows }) k ≡ ok (f r)
  unfolding get
  get-update s k f audit r got same fine =
      let found = (get-ok (fetchone (has_id k) s.rows) r got).0 in
      let here : has_id k r ≡ true = fetchone_sound (has_id k) s.rows r found in
      let e : fetchone (has_id k) (update (has_id k) f s.rows) ≡ some (f r) =
        fetchone-update (has_id k) (has_id k) f s.rows (λ x _. ap (λ i. i == k) (same x))
        ∙ (rw found (rw here refl)) in
      rw e (rw fine refl)

  checkpoint_at-refused :
      (s : FiberStore) (k : String) (step : ℕ) (state : String) (finished : Bool) (now : ℕ)
      (e : Error) (o : Result Error Fiber)
      → get is_object s k ≡ o
      → ((n : ℕ) (status : Status) → refused s.audit (fiber_checkpoint k n status) ≡ false)
      → is_object state ≡ true
      → (checkpoint_at is_object s k step state finished now o).0 ≡ err e
      → (checkpoint_at is_object s k step state finished now o).1 ≡ s
  checkpoint_at-refused s k step state finished now e (err x) got takes object raised =
      unfold checkpoint_at in refl
  checkpoint_at-refused s k step state finished now e (ok r) got takes object raised =
      elim (Bool-cases (ltb step r.step)) [
        | inl back ↦ unfold checkpoint_at in rw back refl
        | inr fine ↦
            let status = if finished then completed else checkpointed in
            let both = (get-ok (fetchone (has_id k) s.rows) r (unfold get in got)).1 in
            let again : get is_object
                  (record {
                    audit = s.audit;
                    rows = update (has_id k) (set_checkpoint status step state now) s.rows;
                  })
                  k
                ≡ ok (set_checkpoint status step state now r) =
              get-update s k (set_checkpoint status step state now) s.audit r got (λ x. refl)
                (ground (arith, both, object)) in
            absurd (
              ok-ne-err (set_checkpoint status step state now r) e
                (unfold checkpoint_at in rw (fine, again, takes step status) at raised))
      ]

  -- a checkpoint that is refused writes nothing
  pub checkpoint-refused :
      (s : FiberStore) (k : String) (step : ℕ) (state : String) (finished : Bool) (now : ℕ)
      (e : Error)
      → ((n : ℕ) (status : Status) → refused s.audit (fiber_checkpoint k n status) ≡ false)
      → is_object state ≡ true
      → (checkpoint is_object s k step state finished now).0 ≡ err e
      → (checkpoint is_object s k step state finished now).1 ≡ s
  checkpoint-refused s k step state finished now e takes object raised =
      unfold checkpoint in
      checkpoint_at-refused s k step state finished now e (get is_object s k) refl takes object
        (unfold checkpoint in raised)
