-- ===== src/BestState/Best.antt =====
-- The best score of a run of noesis_harness/best_state.py is that of its best verified candidate.
use noesis_harness_agent_mem.Table.Finding.{fetchone-append, fetchone_sound, fetchone-update}
use noesis_harness_agent_mem.Prelude.{
  if◌then◌else◌, Bool-cases, Option-cases, ℕ, ◌+◌, max, String, ◌≡◌, refl, sym, ap, ◌∙◌, inl, inr,
  Bool, true, false, Option, none, some, List, [], ◌∷◌, ◌++◌, arith, ◌==◌, eq_refl,
}
use noesis_harness_agent_mem.Table.{fetchone, update}
use noesis_harness_agent_mem.BestState.{
  Run, has_run, StateRecord, ensure_run, decide, touch, is_better, set_current, BestStateStore,
  has_state, record_candidate, new_state, record_state, record_row, rollback, roll_run, roll_best,
  roll_to, is_passed,
}
use noesis_harness_agent_mem.BestState.Updates.{
  score_of, best_score, greater, verified, update-best_score, update_best-best_score, known,
  ensure_run-best_score, unverified,
}

missing_run : (r : Run) → some r ≡ none → ⊥
missing_run r e = cc

-- the row at `j` after an UPDATE of it
marked :
    (j : String) (f : Run → Run) (run : Run) (runs : List Run)
    → ((r : Run) → (f r).run_id ≡ r.run_id)
    → fetchone (has_run j) runs ≡ some run
    → fetchone (has_run j) (update (has_run j) f runs) ≡ some (f run)
marked j f run runs same found =
    let here : has_run j run ≡ true = fetchone_sound (has_run j) runs run found in
    fetchone-update (has_run j) (has_run j) f runs (λ r _. ap (λ i. i == j) (same r))
    ∙ (rw found (rw here refl))

kept :
    (v : ℕ) (b : Option (String × ℕ))
    → is_better v b ≡ false
    → score_of b ≡ greater (score_of b) (some v)
kept v none worse = cc
kept v (some (b, w)) worse = let e : w ≡ max w v = ground arith in ap some e

replaced :
    (v : ℕ) (b : Option (String × ℕ))
    → is_better v b ≡ true
    → some v ≡ greater (score_of b) (some v)
replaced v none better = refl
replaced v (some (b, w)) better = let e : v ≡ max w v = ground arith in ap some e

choose :
    (own : Bool) (o p : Option ℕ) (v : ℕ)
    → (own ≡ true → o ≡ greater o (some v))
    → o ≡ p
    → o ≡ (if own then greater o (some v) else p)
choose true o p v h e = h refl
choose false o p v h e = e

chosen :
    (own : Bool) (v : ℕ) (o p : Option ℕ)
    → (own ≡ true → some v ≡ greater o (some v))
    → p ≡ o
    → (if own then some v else p) ≡ (if own then greater o (some v) else o)
chosen true v o p h e = h refl
chosen false v o p h e = e

ensure_run-found :
    (k : String) (now : ℕ) (runs : List Run)
    → fetchone (has_run k) (ensure_run k now runs) ≡ none
    → ⊥
ensure_run-found k now runs gone = elim (Option-cases (fetchone (has_run k) runs)) [
  | inr (r, old) ↦
      let e : ensure_run k now runs ≡ runs = unfold ensure_run in rw old refl in
      missing_run r (sym old ∙ ap (fetchone (has_run k)) (sym e) ∙ gone)
  | inl new ↦
      let row : Run = record {
        run_id = k;
        best = none;
        current_state_id = none;
        revision = 0;
        updated_at = now;
      } in
      let e : ensure_run k now runs ≡ runs ++ row ∷ [] = unfold ensure_run in rw new refl in
      let f : fetchone (has_run k) (runs ++ row ∷ []) ≡ some row =
        fetchone-append (has_run k) runs (row ∷ [])
        ∙ (rw new (unfold fetchone in rw eq_refl refl)) in
      missing_run row (sym f ∙ ap (fetchone (has_run k)) (sym e) ∙ gone)
]

decide-best_score :
    (k : String) (x : StateRecord) (score : Option ℕ) (run : Run) (now : ℕ) (runs : List Run)
    → fetchone (has_run x.run_id) runs ≡ some run
    → best_score k (decide x score run now runs).1 ≡ (
        if x.run_id == k
        then greater (best_score k runs) (verified x.verifier_status score)
        else best_score k runs)
decide-best_score k x none run now runs found =
    unfold decide in
    update-best_score k x.run_id (touch (run.revision + 1) now) runs (λ r. refl) (λ r. refl)
    ∙ unverified (x.run_id == k) (x.verifier_status == "passed") (best_score k runs)
decide-best_score k x (some v) run now runs found =
    elim (Bool-cases (x.verifier_status == "passed")) [
      | inr fails ↦
          unfold decide in
          rw fails (
            update-best_score k x.run_id (touch (run.revision + 1) now) runs (λ r. refl) (λ r. refl)
            ∙ unverified (x.run_id == k) false (best_score k runs))
      | inl passes ↦
          let mark = set_current x.state_id (run.revision + 1) now in
          let moved = update-best_score k x.run_id mark runs (λ r. refl) (λ r. refl) in
          elim (Bool-cases (is_better v run.best)) [
            | inr worse ↦
                unfold decide in
                rw (passes, worse)
                  (moved
                    ∙ choose (x.run_id == k) (best_score k runs) (best_score k runs) v
                        (λ own.
                          known k x.run_id run runs found own
                          ∙ kept v run.best worse
                          ∙ ap (λ o. greater o (some v))
                              (sym (known k x.run_id run runs found own)))
                        refl)
            | inl better ↦
                unfold decide in
                rw (passes, better)
                  (update_best-best_score k x.run_id x.state_id v (mark run)
                      (update (has_run x.run_id) mark runs)
                      (marked x.run_id mark run runs (λ r. refl) found)
                    ∙ chosen (x.run_id == k) v (best_score k runs) _
                        (λ own.
                          replaced v run.best better
                          ∙ ap (λ o. greater o (some v))
                              (sym (known k x.run_id run runs found own)))
                        moved)
          ]
    ]

-- After a candidate was recorded, the best score of its run is the greater of the one before and
-- the candidate's, if that passed its verifier and is finite; every other run's is as it was.
pub record-best_score :
    (sha256 : String → String) (s : BestStateStore) (run : String) (score : Option ℕ)
    (payload verifier digest metadata sid : String) (now : ℕ) (k : String)
    → fetchone (has_state sid) s.states ≡ none
    → best_score k
        (record_candidate sha256 s run score payload verifier digest metadata sid now).1.runs
      ≡ (if run == k
          then greater (best_score k s.runs) (verified verifier score)
          else best_score k s.runs)
record-best_score sha256 s run score payload verifier digest metadata sid now k new =
    let x = new_state sha256 run score payload verifier digest metadata sid now in
    let same = ensure_run-best_score k run now s.runs in
    elim (Option-cases (fetchone (has_run run) (ensure_run run now s.runs))) [
      | inl gone ↦ absurd (ensure_run-found run now s.runs gone)
      | inr (row, found) ↦
          unfold record_candidate record_state in
          rw new (
            rw found (
              unfold record_row in
              decide-best_score k x score row now (ensure_run run now s.runs) found
              ∙ (rw same refl)))
    ]

roll_to-best_score :
    (s : BestStateStore) (run : Run) (score : ℕ) (target reason fresh : String) (now : ℕ)
    (o : Option StateRecord) (k : String)
    → best_score k (roll_to s run score target reason fresh now o).1.runs ≡ best_score k s.runs
roll_to-best_score s run score target reason fresh now o k = elim (Bool-cases (is_passed o)) [
  | inl fine ↦
      unfold roll_to in
      rw fine (
        update-best_score k run.run_id (set_current target (run.revision + 1) now) s.runs
          (λ r. refl) (λ r. refl))
  | inr bad ↦ unfold roll_to in rw bad refl
]

roll_best-best_score :
    (s : BestStateStore) (run : Run) (state_id reason fresh : String) (now : ℕ)
    (b : Option (String × ℕ)) (k : String)
    → best_score k (roll_best s run state_id reason fresh now b).1.runs ≡ best_score k s.runs
unfolding roll_best
roll_best-best_score s run state_id reason fresh now none k = refl
roll_best-best_score s run state_id reason fresh now (some (b, score)) k =
    roll_to-best_score s run score (if state_id == "" then b else state_id) reason fresh now _ k

roll_run-best_score :
    (s : BestStateStore) (j state_id reason fresh : String) (now : ℕ) (o : Option Run) (k : String)
    → best_score k (roll_run s j state_id reason fresh now o).1.runs ≡ best_score k s.runs
unfolding roll_run
roll_run-best_score s j state_id reason fresh now none k = refl
roll_run-best_score s j state_id reason fresh now (some run) k =
    roll_best-best_score s run state_id reason fresh now run.best k

-- A rollback, to whatever state and for whatever run, loses no run's best score.
pub rollback-best_score :
    (s : BestStateStore) (j state_id reason fresh : String) (now : ℕ) (k : String)
    → best_score k (rollback s j state_id reason fresh now).1.runs ≡ best_score k s.runs
unfolding rollback
rollback-best_score s j state_id reason fresh now k =
    roll_run-best_score s j state_id reason fresh now (fetchone (has_run j) s.runs) k
