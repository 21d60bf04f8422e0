-- ===== src/WorkCoordinator/Claiming.antt =====
-- What a `claim` of noesis_harness/orchestration.py hands out, and when it finds something.
use mathlib.Core.Path.{subst}
use mathlib.Core.Option.{some-injective}
use noesis_harness_agent_mem.Prelude.{
  ok, err, eqb, Bool-cases, All, Result, ℕ, ◌+◌, ◌≤◌, ◌<◌, String, ◌≡◌, refl, inl, inr, Bool, true,
  false, ◌&&◌, ◌||◌, Option, some, List, [], ◌∷◌, arith, ◌==◌,
}
use noesis_harness_agent_mem.Table.{count, update}
use noesis_harness_agent_mem.Table.Counting.{count-update, count-imp-le}
use noesis_harness_agent_mem.Table.Holding.{All-imp, All-selected, All-updated}
use noesis_harness_agent_mem.Table.Sorting.{All-order_by}
use noesis_harness_agent_mem.Table.Keyed.{member-pos, All-of_unique, update-keyed}
use noesis_harness_agent_mem.WorkCoordinator.{
  Item, WorkClaim, WorkCoordinator, has_id, is_free, deps_done, by_id, ready, is_allowed,
  is_claimable, mark_leased, lease_row, new_claim, claim_rows, claim_reply, claim, Error, is_leased,
  value_error,
}

abbrev pub Keyed : List Item → Type 0
Keyed rows = (k : String) → count (has_id k) rows ≤ 1

-- a row that an agent with these scopes may claim: free, its requirements done, its scope allowed
abbrev pub is_open : List Item → List String → ℕ → Item → Bool
is_open rows scopes now r = is_free now r && (deps_done rows r.deps && is_allowed scopes r)

-- all rows at the identifier of `r` are open
abbrev OpenAt : List Item → List String → ℕ → Item → Type 0
OpenAt rows scopes now r =
    All (λ x. has_id r.task_id x ≡ true → is_open rows scopes now x ≡ true) rows

abbrev pub HeldRow : String → String → ℕ → Item → Type 0
HeldRow k h e r =
    has_id k r ≡ true → ((is_leased r.status ≡ true) × (r.owner ≡ h)) × (e ≤ r.lease_until)

-- The rows at `k` are leased by `h` until `e` at least, and there is one.
pub record Held (k h : String) (e : ℕ) (rows : List Item) : Type 0 where
  pub present : 0 < count (has_id k) rows
  pub held : All (HeldRow k h e) rows

ready-OpenAt :
    (s : WorkCoordinator) (scopes : List String) (now : ℕ)
    → Keyed s.rows
    → All (λ r. is_allowed scopes r ≡ true → OpenAt s.rows scopes now r) (ready s now)
unfolding ready
ready-OpenAt s scopes now keyed =
    All-selected (λ r. is_allowed scopes r ≡ true → OpenAt s.rows scopes now r)
      (λ r. deps_done s.rows r.deps) _
      (All-order_by by_id
        (λ r.
          deps_done s.rows r.deps ≡ true → is_allowed scopes r ≡ true → OpenAt s.rows scopes now r)
        _
        (All-selected
          (λ r.
            deps_done s.rows r.deps ≡ true
            → is_allowed scopes r ≡ true
            → OpenAt s.rows scopes now r)
          (is_free now) s.rows
          (All-imp
            (λ r h free deps allowed.
              All-of_unique (λ x. x.task_id) (is_open s.rows scopes now) r.task_id s.rows
                (keyed r.task_id) (h (ground (arith, free, deps, allowed))))
            s.rows (member-pos (λ x. x.task_id) (is_open s.rows scopes now) s.rows))))

-- the lease of one row, when its UPDATE touches a row
leased-Held :
    (agent : String) (until now : ℕ) (k : String) (rows : List Item)
    → Keyed rows
    → count (is_claimable k now) rows ≡ 1
    → Held k agent until (update (is_claimable k now) (mark_leased agent until) rows)
leased-Held agent until now k rows keyed one = record {
  present = omega (
    arith,
    count-update (has_id k) (is_claimable k now) (mark_leased agent until) rows (λ r _. refl),
    count-imp-le (is_claimable k now) (has_id k) rows (λ r h. ground arith),
  );
  held = All-updated _ (is_claimable k now) (mark_leased agent until) rows (
      All-imp (λ r free h. ground (arith, free, h)) rows
        (All-of_unique (λ x. x.task_id) (is_free now) k rows (keyed k) (omega (arith, one))));
}

lease_row-Keyed :
    (s : WorkCoordinator) (agent : String) (ttl now : ℕ) (row : Item)
    → Keyed s.rows
    → Keyed (lease_row s agent ttl now row).rows
lease_row-Keyed s agent ttl now row keyed k =
    rw
      (update-keyed (λ x. x.task_id) (is_claimable row.task_id now) (mark_leased agent (now + ttl))
        s.rows k (λ r. refl))
      (keyed k)

-- what the loop guarantees of the claim that it returns
abbrev pub Granted : List Item → List String → String → ℕ → ℕ → WorkClaim → List Item → Type 0
Granted rows scopes agent ttl now c after =
    ((c.agent_id ≡ agent) × (c.lease_until ≡ now + ttl))
    × Held c.task_id agent (now + ttl) after
    × All (λ x. has_id c.task_id x ≡ true → is_open rows scopes now x ≡ true) rows

claim_rows-Granted :
    (s : WorkCoordinator) (agent : String) (scopes : List String) (ttl now : ℕ)
    (rows all : List Item) (c : WorkClaim)
    → Keyed s.rows
    → All (λ r. is_allowed scopes r ≡ true → OpenAt all scopes now r) rows
    → (claim_rows s agent scopes ttl now rows).0 ≡ some c
    → Granted all scopes agent ttl now c (claim_rows s agent scopes ttl now rows).1.rows
unfolding claim_rows
claim_rows-Granted s agent scopes ttl now [] all c keyed fit got = cc
claim_rows-Granted s agent scopes ttl now (row ∷ rows) all c keyed fit got =
    elim (Bool-cases (is_allowed scopes row)) [
      | inr shut ↦
          rw shut
            (claim_rows-Granted s agent scopes ttl now rows all c keyed fit.1 (rw shut at got))
      | inl allowed ↦ elim (Bool-cases (eqb (count (is_claimable row.task_id now) s.rows) 1)) [
        | inl one ↦
            let same : new_claim agent (now + ttl) row ≡ c =
              some-injective _ _ (rw (allowed, one) at got) in
            rw (allowed, one)
              (subst (λ d. Granted all scopes agent ttl now d (lease_row s agent ttl now row).rows)
                same
                (
                  (refl, refl),
                  leased-Held agent (now + ttl) now row.task_id s.rows keyed (ground arith),
                  fit.0 allowed,
                ))
        | inr two ↦
            rw (allowed, two)
              (claim_rows-Granted (lease_row s agent ttl now row) agent scopes ttl now rows all c
                (lease_row-Keyed s agent ttl now row keyed) fit.1 (rw (allowed, two) at got))
      ]
    ]

value-ok :
    (o p : Option WorkClaim) → ◌≡◌ {A = Result Error (Option WorkClaim)} (ok o) (ok p) → o ≡ p
value-ok o p e = cc

pub claim-reply :
    (s : WorkCoordinator) (agent : String) (scopes : List String) (ttl now : ℕ)
    → ((agent == "") || eqb ttl 0) ≡ false
    → claim s agent scopes ttl now ≡ claim_reply (claim_rows s agent scopes ttl now (ready s now))
unfolding claim
claim-reply s agent scopes ttl now good = rw good

value-err :
    (o : Option WorkClaim) (e : Error)
    → ◌≡◌ {A = Result Error (Option WorkClaim)} (err e) (ok o)
    → ⊥
value-err o e same = cc

refused :
    (s : WorkCoordinator) (agent : String) (scopes : List String) (ttl now : ℕ)
    (o : Option WorkClaim)
    → ((agent == "") || eqb ttl 0) ≡ true
    → (claim s agent scopes ttl now).0 ≡ ok o
    → ⊥
unfolding claim
refused s agent scopes ttl now o bad got = value-err o value_error (rw bad at got)

-- In a table with unique identifiers: the task of a claim that `claim` returns was free (pending,
-- or leased and expired), had all its requirements done and a scope that the agent may take; the
-- claim names the agent and runs for the full term; and the task is now leased by the agent for that
-- term.
pub claim-Granted :
    (s : WorkCoordinator) (agent : String) (scopes : List String) (ttl now : ℕ) (c : WorkClaim)
    → Keyed s.rows
    → (claim s agent scopes ttl now).0 ≡ ok (some c)
    → Granted s.rows scopes agent ttl now c (claim s agent scopes ttl now).1.rows
claim-Granted s agent scopes ttl now c keyed got = elim (Bool-cases ((agent == "") || eqb ttl 0)) [
  | inl bad ↦ absurd (refused s agent scopes ttl now (some c) bad got)
  | inr good ↦
      let e = claim-reply s agent scopes ttl now good in
      rw e (
        claim_rows-Granted s agent scopes ttl now (ready s now) s.rows c keyed
          (ready-OpenAt s scopes now keyed) (value-ok _ _ (rw e at got)))
]
