-- ===== src/WorkCoordinator/Completed.antt =====
-- A task of noesis_harness/orchestration.py that is done stays as it is.
use noesis_harness_agent_mem.Prelude.{
  is_some, Bool-cases, contains, ℕ, ◌+◌, String, ◌≡◌, refl, ap, ◌∙◌, inl, inr, Bool, true, false,
  ◌||◌, some, List, [], ◌∷◌, arith, ◌==◌,
}
use noesis_harness_agent_mem.Table.{fetchone, update}
use noesis_harness_agent_mem.Table.Finding.{fetchone-append, fetchone-update}
use noesis_harness_agent_mem.WorkCoordinator.{
  Item, WorkCoordinator, has_id, is_claimable, is_done, mark_leased, heartbeat, complete,
  reclaim_expired, add, is_kept, is_owned, is_expired, Call, add_call, claim_call, heartbeat_call,
  complete_call, reclaim_call, step, run,
}
use noesis_harness_agent_mem.WorkCoordinator.Ownership.{claim-keeps}

module _ (k : String) (r : Item) (finished : is_done r.status ≡ true) where
  -- the row that stands at `k`
  abbrev Stands : List Item → Type 0
  Stands rows = fetchone (has_id k) rows ≡ some r

  update-Stands :
      (q : Item → Bool) (f : Item → Item) (rows : List Item)
      → ((x : Item) → q x ≡ true → (f x).task_id ≡ x.task_id)
      → q r ≡ false
      → Stands rows
      → Stands (update q f rows)
  update-Stands q f rows same apart h =
      fetchone-update (has_id k) q f rows (λ x c. ap (λ j. j == k) (same x c))
      ∙ (rw h (rw apart refl))

  add-Stands :
      (s : WorkCoordinator) (j : String) (deps : List String) (scope : String)
      → Stands s.rows
      → Stands (add s j deps scope).1.rows
  add-Stands s j deps scope h = elim (Bool-cases ((j == "") || contains deps j)) [
    | inl bad ↦ unfold add in rw bad h
    | inr good ↦ elim (Bool-cases (is_some (fetchone (has_id j) s.rows))) [
      | inl old ↦ unfold add in rw (good, old) h
      | inr new ↦ unfold add in rw (good, new) (fetchone-append (has_id k) s.rows _ ∙ (rw h refl))
    ]
  ]

  step-Stands :
      (sha256 : String → String) (s : WorkCoordinator) (now : ℕ) (c : Call)
      → Stands s.rows
      → Stands (step sha256 s now c).rows
  unfolding step
  step-Stands sha256 s now (add_call j deps scope) h = add-Stands s j deps scope h
  step-Stands sha256 s now (claim_call agent scopes ttl) h =
      claim-keeps Stands now (now + ttl) agent
        (λ j rows w.
          update-Stands (is_claimable j now) (mark_leased agent (now + ttl)) rows (λ x c. refl)
            (ground (arith, finished)) w)
        s scopes ttl refl h
  step-Stands sha256 s now (heartbeat_call j agent ttl) h =
      unfold heartbeat in
      update-Stands (is_kept j agent now) _ s.rows (λ x c. refl) (ground (arith, finished)) h
  step-Stands sha256 s now (complete_call j agent result) h =
      unfold complete in
      update-Stands (is_owned j agent) _ s.rows (λ x c. refl) (ground (arith, finished)) h
  step-Stands sha256 s now reclaim_call h =
      unfold reclaim_expired in
      update-Stands (is_expired now) _ s.rows (λ x c. refl) (ground (arith, finished)) h

  -- A task that is done keeps its row, its owner and its result, whatever calls are made and by whom.
  pub run-keeps_done :
      (sha256 : String → String) (s : WorkCoordinator) (calls : List (ℕ × Call))
      → fetchone (has_id k) s.rows ≡ some r
      → fetchone (has_id k) (run sha256 s calls).rows ≡ some r
  unfolding run
  run-keeps_done sha256 s [] h = h
  run-keeps_done sha256 s ((now, c) ∷ cs) h =
      run-keeps_done sha256 (step sha256 s now c) cs (step-Stands sha256 s now c h)
