-- ===== src/WorkCoordinator/Exclusion.antt =====
-- One live owner for each task of noesis_harness/orchestration.py.
use mathlib.Core.Path.{subst}
use noesis_harness_agent_mem.Prelude.{
  ok, err, Bool-cases, Option-cases, All, contains, Result, ℕ, ◌+◌, ◌≤◌, ◌<◌, String, ◌≡◌, refl, ap,
  ◌≢◌, inl, inr, Bool, true, false, ◌||◌, Option, none, some, List, [], ◌∷◌, arith, ◌==◌, eq_iff,
}
use noesis_harness_agent_mem.Table.{fetchone, count, update}
use noesis_harness_agent_mem.Table.Keyed.{append-keyed, update-keyed}
use noesis_harness_agent_mem.WorkCoordinator.{
  Item, WorkClaim, WorkCoordinator, has_id, is_claimable, mark_leased, claim, heartbeat, complete,
  reclaim_expired, add, is_kept, is_owned, is_expired, Call, add_call, claim_call, heartbeat_call,
  complete_call, reclaim_call, step, run, Error,
}
use noesis_harness_agent_mem.WorkCoordinator.Claiming.{Held, HeldRow, Keyed, is_open, claim-Granted}
use noesis_harness_agent_mem.WorkCoordinator.Ownership.{claim-keeps, AllSpare, run-Held}

add-Keyed :
    (s : WorkCoordinator) (j : String) (deps : List String) (scope : String)
    → Keyed s.rows
    → Keyed (add s j deps scope).1.rows
add-Keyed s j deps scope keyed = elim (Bool-cases ((j == "") || contains deps j)) [
  | inl bad ↦ unfold add in rw bad keyed
  | inr good ↦ elim (Option-cases (fetchone (has_id j) s.rows)) [
    | inr (x, old) ↦ unfold add in rw (good, old) keyed
    | inl new ↦
        unfold add in rw (good, new) (λ k. append-keyed (λ x. x.task_id) s.rows _ new keyed k)
  ]
]

update-Keyed :
    (q : Item → Bool) (f : Item → Item) (rows : List Item)
    → ((r : Item) → (f r).task_id ≡ r.task_id)
    → Keyed rows
    → Keyed (update q f rows)
update-Keyed q f rows same keyed k = rw (update-keyed (λ x. x.task_id) q f rows k same) (keyed k)

step-Keyed :
    (sha256 : String → String) (s : WorkCoordinator) (now : ℕ) (c : Call)
    → Keyed s.rows
    → Keyed (step sha256 s now c).rows
unfolding step
step-Keyed sha256 s now (add_call j deps scope) keyed = add-Keyed s j deps scope keyed
step-Keyed sha256 s now (claim_call agent scopes ttl) keyed =
    claim-keeps Keyed now (now + ttl) agent
      (λ j rows w.
        update-Keyed (is_claimable j now) (mark_leased agent (now + ttl)) rows (λ r. refl) w)
      s scopes ttl refl keyed
step-Keyed sha256 s now (heartbeat_call j agent ttl) keyed =
    unfold heartbeat in update-Keyed (is_kept j agent now) _ s.rows (λ r. refl) keyed
step-Keyed sha256 s now (complete_call j agent result) keyed =
    unfold complete in update-Keyed (is_owned j agent) _ s.rows (λ r. refl) keyed
step-Keyed sha256 s now reclaim_call keyed =
    unfold reclaim_expired in update-Keyed (is_expired now) _ s.rows (λ r. refl) keyed

run-Keyed :
    (sha256 : String → String) (s : WorkCoordinator) (calls : List (ℕ × Call))
    → Keyed s.rows
    → Keyed (run sha256 s calls).rows
unfolding run
run-Keyed sha256 s [] keyed = keyed
run-Keyed sha256 s ((now, c) ∷ cs) keyed =
    run-Keyed sha256 (step sha256 s now c) cs (step-Keyed sha256 s now c keyed)

update-none :
    (q : Item → Bool) (f : Item → Item) (rows : List Item)
    → count q rows ≡ 0
    → update q f rows ≡ rows
unfolding update count
update-none q f [] h = refl
update-none q f (r ∷ rs) h = elim (Bool-cases (q r)) [
  | inl e ↦ absurd (ground (arith, h, e))
  | inr e ↦ rw e (ap (λ l. r ∷ l) (update-none q f rs (ground (arith, h, e))))
]

-- a held task is open to nobody
closed :
    (k h : String) (e now : ℕ) (scopes : List String) (all rows : List Item)
    → now ≤ e
    → 0 < count (has_id k) rows
    → All (HeldRow k h e) rows
    → All (λ x. has_id k x ≡ true → is_open all scopes now x ≡ true) rows
    → ⊥
unfolding count
closed k h e now scopes all [] early present held fit = omega arith
closed k h e now scopes all (r ∷ rs) early present held fit = elim (Bool-cases (has_id k r)) [
  | inl own ↦ ground (arith, held.0 own, fit.0 own, early)
  | inr other ↦ closed k h e now scopes all rs early (ground (arith, present, other)) held.1 fit.1
]

-- no row at a held task is owned by another agent
foreign :
    (k h j : String) (e : ℕ) (rows : List Item)
    → j ≢ h
    → All (HeldRow k h e) rows
    → count (is_owned k j) rows ≡ 0
unfolding count
foreign k h j e [] ne held = refl
foreign k h j e (r ∷ rs) ne held =
    ground (arith, held.0, ne, eq_iff r.owner j, foreign k h j e rs ne held.1)

abbrev pub hands_out : String → Result Error (Option WorkClaim) → Bool
hands_out k (err e) = false
hands_out k (ok none) = false
hands_out k (ok (some d)) = d.task_id == k

module _ (sha256 : String → String) (s : WorkCoordinator) (agent : String) (scopes : List String)
    (ttl now : ℕ) (c : WorkClaim) (calls : List (ℕ × Call)) (keyed : Keyed s.rows)
    (got : (claim s agent scopes ttl now).0 ≡ ok (some c))
    (sp : AllSpare c.task_id agent (now + ttl) calls) where
  abbrev after : WorkCoordinator
  after = run sha256 (claim s agent scopes ttl now).1 calls

  after-Held : Held c.task_id agent (now + ttl) after.rows
  after-Held =
      run-Held sha256 (claim s agent scopes ttl now).1 c.task_id agent (now + ttl) calls sp
        (claim-Granted s agent scopes ttl now c keyed got).1

  after-Keyed : Keyed after.rows
  after-Keyed =
      run-Keyed sha256 (claim s agent scopes ttl now).1 calls
        (unfold step in step-Keyed sha256 s now (claim_call agent scopes ttl) keyed)

  reply-other :
      (j : String) (others : List String) (term later : ℕ) (o : Result Error (Option WorkClaim))
      → later ≤ now + ttl
      → (claim after j others term later).0 ≡ o
      → hands_out c.task_id o ≡ false
  reply-other j others term later (err e) early again = refl
  reply-other j others term later (ok none) early again = refl
  reply-other j others term later (ok (some d)) early again =
      elim (Bool-cases (d.task_id == c.task_id)) [
        | inr other ↦ other
        | inl same ↦ absurd (
            closed c.task_id agent (now + ttl) later others after.rows after.rows early
              after-Held.present after-Held.held
              (subst
                (λ k.
                  All (λ x. has_id k x ≡ true → is_open after.rows others later x ≡ true)
                    after.rows)
                ((eq_iff d.task_id c.task_id).0 same)
                (claim-Granted after j others term later d after-Keyed again).2))
      ]

  -- In a table with unique identifiers: once an agent has claimed a task, then until the end of its
  -- term, whatever calls are made by then but a heartbeat or a completion in its name, no claim
  -- hands the task out again.
  pub claim-exclusive :
      (j : String) (others : List String) (term later : ℕ)
      → later ≤ now + ttl
      → hands_out c.task_id (claim after j others term later).0 ≡ false
  claim-exclusive j others term later early =
      reply-other j others term later (claim after j others term later).0 early refl

  -- In a table with unique identifiers: once an agent has claimed a task, then after any calls that
  -- are made within its term but a heartbeat or a completion in its name, another agent's
  -- completion of the task is refused and changes no row.
  pub complete-refused :
      (j result : String)
      → j ≢ agent
      → ((complete sha256 after c.task_id j result).0 ≡ false)
        × ((complete sha256 after c.task_id j result).1.rows ≡ after.rows)
  complete-refused j result ne =
      let none_own = foreign c.task_id agent j (now + ttl) after.rows ne after-Held.held in
      unfold complete in
      rw none_own (refl, update-none (is_owned c.task_id j) _ after.rows none_own)
