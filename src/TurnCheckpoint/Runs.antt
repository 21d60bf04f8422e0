-- ===== src/TurnCheckpoint/Runs.antt =====
-- Whatever calls noesis_harness/turn_checkpoint.py gets, the chain of every run verifies.
use noesis_harness_agent_mem.Table.{fetchone, select}
use noesis_harness_agent_mem.Prelude.{
  ok, err, if◌then◌else◌, Bool-cases, Result, ℕ, String, ◌≡◌, refl, ap, ◌∙◌, inl, inr, Bool, true,
  Option, none, some, List, [], ◌∷◌, ◌==◌,
}
use noesis_harness_agent_mem.TurnCheckpoint.Recover.{
  interrupt, recover, recover_at, interrupt_at, resumed, is_corrupted, checked,
}
use noesis_harness_agent_mem.TurnCheckpoint.Verify.{verify_chain, verify_rows}
use noesis_harness_agent_mem.TurnCheckpoint.{
  Error, TurnCheckpoint, Store, running, checkpointed, completed, interrupted, latest, begin,
  commit_turn, has_run, of_run, last_row,
}
use noesis_harness_agent_mem.TurnCheckpoint.Chain.{order_by-Linked, verify_rows-Linked}
use noesis_harness_agent_mem.TurnCheckpoint.Recorded.{
  IsSound, commit_at-IsSound, set_status-IsSound, begin_at-IsSound,
}

pub data Call : Type 0 where
  begin_call recover_call : String → Call
  commit_call : String → ℕ → String → String → Bool → Call
  interrupt_call : String → String → Call

-- The states that are committed are of dicts, and are read back as they were written.
abbrev pub Objects : (String → Bool) → (String → String) → List (ℕ × Call) → Type 0
Objects is_object reload [] = Unit
Objects is_object reload ((now, commit_call k turn state output done) ∷ cs) =
    (is_object state ≡ true) × (reload state ≡ state) × Objects is_object reload cs
Objects is_object reload ((now, begin_call k) ∷ cs) = Objects is_object reload cs
Objects is_object reload ((now, recover_call k) ∷ cs) = Objects is_object reload cs
Objects is_object reload ((now, interrupt_call k reason) ∷ cs) = Objects is_object reload cs

module _ (is_object : String → Bool) (sha : String → String) (seal : TurnCheckpoint → String)
    (reload : String → String) where
  unfoldable pub step : Store → ℕ → Call → Store
  step s now (begin_call k) = (begin is_object sha seal s k now).1
  step s now (recover_call k) = (recover is_object sha seal s k).1
  step s now (commit_call k turn state output done) =
      (commit_turn is_object sha seal reload s k turn state output done now).1
  step s now (interrupt_call k reason) = (interrupt is_object sha seal s k reason).1

  unfoldable pub run : Store → List (ℕ × Call) → Store
  run s [] = s
  run s ((now, c) ∷ cs) = run (step s now c) cs

  begin-IsSound :
      (s : Store) (k : String) (now : ℕ)
      → IsSound is_object sha seal s
      → IsSound is_object sha seal (begin is_object sha seal s k now).1
  begin-IsSound s k now v j = elim (Bool-cases (k == "")) [
    | inl empty ↦ unfold begin in rw empty (v j)
    | inr named ↦
        unfold begin in
        rw named (begin_at-IsSound is_object sha seal s k now (fetchone (has_run k) s.runs) v j)
  ]

  interrupt_at-IsSound :
      (s : Store) (k reason : String) (o : Result Error TurnCheckpoint)
      → IsSound is_object sha seal s
      → IsSound is_object sha seal (interrupt_at s k reason o).1
  interrupt_at-IsSound s k reason (err e) v j = v j
  interrupt_at-IsSound s k reason (ok current) v j = elim (Bool-cases (reason == "")) [
    | inl empty ↦ rw empty (v j)
    | inr named ↦ rw named (set_status-IsSound is_object sha seal s k interrupted v j)
  ]

  resumed-IsSound :
      (s : Store) (k : String) (current : TurnCheckpoint) (o : Option Error)
      → IsSound is_object sha seal s
      → IsSound is_object sha seal (resumed s k current o).1
  resumed-IsSound s k current (some e) v j = v j
  resumed-IsSound s k current none v j = set_status-IsSound is_object sha seal s k running v j

  recover_at-IsSound :
      (s : Store) (k : String) (o : Result Error TurnCheckpoint)
      → IsSound is_object sha seal s
      → IsSound is_object sha seal (recover_at is_object sha seal s k o).1
  recover_at-IsSound s k (err e) v j = v j
  recover_at-IsSound s k (ok current) v j = elim (Bool-cases (is_corrupted current.status)) [
    | inl bad ↦ rw bad (v j)
    | inr fine ↦
        rw fine (resumed-IsSound s k current (checked is_object sha seal (last_row s k)) v j)
  ]

  run-IsSound :
      (s : Store) (calls : List (ℕ × Call))
      → Objects is_object reload calls
      → IsSound is_object sha seal s
      → IsSound is_object sha seal (run s calls)
  unfolding run step
  run-IsSound s [] objects v = v
  run-IsSound s ((now, begin_call k) ∷ cs) objects v =
      run-IsSound (begin is_object sha seal s k now).1 cs objects (begin-IsSound s k now v)
  run-IsSound s ((now, recover_call k) ∷ cs) objects v =
      run-IsSound (recover is_object sha seal s k).1 cs objects
        (unfold recover in recover_at-IsSound s k (latest is_object sha seal s k) v)
  run-IsSound s ((now, commit_call k turn state output done) ∷ cs) objects v =
      run-IsSound (commit_turn is_object sha seal reload s k turn state output done now).1 cs
        objects.2
        (unfold commit_turn in
          commit_at-IsSound is_object sha seal reload s k state output turn now
            (if done then completed else checkpointed) (latest is_object sha seal s k) refl
            objects.0 objects.1 v)
  run-IsSound s ((now, interrupt_call k reason) ∷ cs) objects v =
      run-IsSound (interrupt is_object sha seal s k reason).1 cs objects
        (unfold interrupt in interrupt_at-IsSound s k reason (latest is_object sha seal s k) v)

  -- Whatever runs are begun, committed to, interrupted and recovered, from empty tables, the calls
  -- that fail included: `verify_chain` of every run then succeeds, where the states that are
  -- committed are dicts whose canonical text is read back as it was written.
  pub run-verify_chain :
      (calls : List (ℕ × Call)) (k : String)
      → Objects is_object reload calls
      → verify_chain is_object sha seal (run (record { checkpoints = []; runs = [] }) calls) k
        ≡ ok true
  unfolding verify_chain
  run-verify_chain calls k objects =
      let s = run (record { checkpoints = []; runs = [] }) calls in
      let empty : IsSound is_object sha seal (record { checkpoints = []; runs = [] }) =
        λ j. unfold select in unfold fetchone in (tt, refl) in
      let (links, agrees) =
        run-IsSound (record { checkpoints = []; runs = [] }) calls objects empty k in
      ap (verify_rows is_object sha seal "")
        (order_by-Linked is_object sha seal none "" (select (of_run k) s.checkpoints) links)
      ∙ verify_rows-Linked is_object sha seal none "" (select (of_run k) s.checkpoints) links
