-- ===== src/WorkCoordinator/Progress.antt =====
-- When a `claim` of noesis_harness/orchestration.py finds something to do.
use noesis_harness_agent_mem.Prelude.{
  ok, eqb, is_some, Bool-cases, Option-cases, ==_ne, All, ℕ, ◌<◌, String, ◌≡◌, refl, ap, ◌∙◌, ◌≢◌,
  inl, inr, true, false, ◌&&◌, ◌||◌, none, some, List, [], ◌∷◌, arith, ◌==◌,
}
use noesis_harness_agent_mem.Table.{count}
use noesis_harness_agent_mem.Table.Counting.{count-select, count-imp-le}
use noesis_harness_agent_mem.Table.Holding.{All-imp, All-selected}
use noesis_harness_agent_mem.Table.Sorting.{count-order_by, All-order_by}
use noesis_harness_agent_mem.Table.Keyed.{member-pos}
use noesis_harness_agent_mem.WorkCoordinator.{
  Item, WorkClaim, WorkCoordinator, has_id, is_free, deps_done, by_id, ready, is_allowed,
  is_claimable, claim_rows, claim,
}
use noesis_harness_agent_mem.WorkCoordinator.Claiming.{Keyed, is_open, claim-reply}

-- a ready row that stands in the table once is claimed
claim_rows-finds :
    (s : WorkCoordinator) (agent : String) (scopes : List String) (ttl now : ℕ) (rows : List Item)
    → All (λ r. is_allowed scopes r ≡ true → count (is_claimable r.task_id now) s.rows ≡ 1) rows
    → 0 < count (is_allowed scopes) rows
    → is_some (claim_rows s agent scopes ttl now rows).0 ≡ true
unfolding claim_rows count
claim_rows-finds s agent scopes ttl now [] once some_row = absurd (omega arith)
claim_rows-finds s agent scopes ttl now (row ∷ rows) once some_row =
    elim (Bool-cases (is_allowed scopes row)) [
      | inl allowed ↦
          let one : eqb (count (is_claimable row.task_id now) s.rows) 1 ≡ true =
            ground (arith, once.0 allowed) in
          rw (allowed, one) refl
      | inr shut ↦ rw shut (claim_rows-finds s agent scopes ttl now rows once.1 (ground arith))
    ]

ready-once :
    (s : WorkCoordinator) (scopes : List String) (now : ℕ)
    → Keyed s.rows
    → All
        (λ r. is_allowed scopes r ≡ true → count (is_claimable r.task_id now) s.rows ≡ 1)
        (ready s now)
unfolding ready
ready-once s scopes now keyed =
    All-selected (λ r. is_allowed scopes r ≡ true → count (is_claimable r.task_id now) s.rows ≡ 1)
      (λ r. deps_done s.rows r.deps) _
      (All-order_by by_id
        (λ r.
          deps_done s.rows r.deps ≡ true
          → is_allowed scopes r ≡ true
          → count (is_claimable r.task_id now) s.rows ≡ 1)
        _
        (All-selected
          (λ r.
            deps_done s.rows r.deps ≡ true
            → is_allowed scopes r ≡ true
            → count (is_claimable r.task_id now) s.rows ≡ 1)
          (is_free now) s.rows
          (All-imp
            (λ r h free deps allowed. omega (
              arith,
              keyed r.task_id,
              h free,
              count-imp-le (is_claimable r.task_id now) (has_id r.task_id) s.rows
                  (λ x e. ground arith),
            ))
            s.rows (member-pos (λ x. x.task_id) (is_free now) s.rows))))

ready-count :
    (s : WorkCoordinator) (scopes : List String) (now : ℕ)
    → count (is_allowed scopes) (ready s now) ≡ count (is_open s.rows scopes now) s.rows
unfolding ready
ready-count s scopes now =
    count-select (is_allowed scopes) (λ r. deps_done s.rows r.deps) _
    ∙ count-order_by by_id (λ r. deps_done s.rows r.deps && is_allowed scopes r) _
    ∙ count-select (λ r. deps_done s.rows r.deps && is_allowed scopes r) (is_free now) s.rows

none_found : is_some {A = WorkClaim} none ≡ true → ⊥
none_found e = cc

-- In a table with unique identifiers, an agent with a name that asks for a positive term gets a
-- claim whenever some task is open to it: free, its requirements done, its scope allowed.
pub claim-finds :
    (s : WorkCoordinator) (agent : String) (scopes : List String) (ttl now : ℕ)
    → Keyed s.rows
    → agent ≢ ""
    → 0 < ttl
    → 0 < count (is_open s.rows scopes now) s.rows
    → (c : WorkClaim) × ((claim s agent scopes ttl now).0 ≡ ok (some c))
claim-finds s agent scopes ttl now keyed named positive waiting =
    let found =
      claim_rows-finds s agent scopes ttl now (ready s now) (ready-once s scopes now keyed)
        (omega (arith, waiting, ready-count s scopes now)) in
    let unnamed : (agent == "") ≡ false = ==_ne agent "" named in
    let good : ((agent == "") || eqb ttl 0) ≡ false = ground (arith, unnamed) in
    elim (Option-cases (claim_rows s agent scopes ttl now (ready s now)).0) [
      | inl nothing ↦ absurd (none_found (rw nothing at found))
      | inr (c, e) ↦ (c, rw (claim-reply s agent scopes ttl now good) (ap ok e))
    ]
