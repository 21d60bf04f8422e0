-- ===== src/WorkCoordinator.antt =====
-- class WorkCoordinator of noesis_harness/orchestration.py. `audit`, where it is set, is the sequence of
-- the calls of AuditChain.append. A result is its JSON text; `sha256` is the hex digest.
pub mod Claiming
pub mod Progress
pub mod Ownership
pub mod Exclusion
pub mod Completed
use Prim.Native.String.{compare}
use Prim.Native.Nat.{lt, eq, gt}
use noesis_harness_agent_mem.Prelude.{
  ℕ, suc, ◌+◌, String, Bool, true, false, Option, none, some, List, [], ◌∷◌, ◌++◌, ◌&&◌, ◌||◌, ◌==◌,
  not, ltb, leb, eqb, if◌then◌else◌, Result, ok, err, is_some, contains,
}
use noesis_harness_agent_mem.Table.{select, fetchone, count, update, order_by}

pub data Status : Type 0 where
  pending leased done : Status

pub record Item : Type 0 where
  pub task_id : String
  pub deps : List String
  pub scope : String
  pub status : Status
  pub owner : String
  pub lease_until : ℕ
  pub attempt : ℕ
  pub result_digest : String
  pub result : String

pub record WorkClaim : Type 0 where
  pub task_id : String
  pub agent_id : String
  pub lease_until : ℕ
  pub attempt : ℕ

pub data Event : Type 0 where
  work_claimed : String → String → ℕ → Event
  work_completed : String → String → String → Event

pub record WorkCoordinator : Type 0 where
  pub audit : Option (List Event)
  pub rows : List Item

pub data Error : Type 0 where
  value_error integrity_error key_error : Error

abbrev pub has_id : String → Item → Bool
has_id k r = r.task_id == k

abbrev pub is_pending : Status → Bool
is_pending pending = true
is_pending leased = false
is_pending done = false

abbrev pub is_leased : Status → Bool
is_leased pending = false
is_leased leased = true
is_leased done = false

abbrev pub is_done : Status → Bool
is_done pending = false
is_done leased = false
is_done done = true

-- `if self.audit: self.audit.append(…)`
abbrev pub log : Option (List Event) → Event → Option (List Event)
log none e = none
log (some es) e = some (es ++ e ∷ [])

unfoldable pub add :
    WorkCoordinator → String → List String → String → Option Error × WorkCoordinator
add s tid deps scope =
    let row : Item = record {
      task_id = tid;
      deps = deps;
      scope = scope;
      status = pending;
      owner = "";
      lease_until = 0;
      attempt = 0;
      result_digest = "";
      result = "";
    } in
    if (tid == "") || contains deps tid
    then (some value_error, s)
    else if is_some (fetchone (has_id tid) s.rows)
    then (some integrity_error, s)
    else (none, record s { rows = s.rows ++ row ∷ [] })

-- status='pending' OR (status='leased' AND lease_until<?)
abbrev pub is_free : ℕ → Item → Bool
is_free now r = is_pending r.status || (is_leased r.status && ltb r.lease_until now)

abbrev pub row_done : Option Item → Bool
row_done none = false
row_done (some r) = is_done r.status

unfoldable pub deps_done : List Item → List String → Bool
deps_done rows [] = true
deps_done rows (d ∷ ds) =
    let rest = deps_done rows ds in row_done (fetchone (has_id d) rows) && rest

-- ORDER BY task_id: the order of the texts' bytes
abbrev pub by_id : Item → Item → Bool
by_id a b = elim (compare a.task_id b.task_id) [ lt ↦ true | eq ↦ true | gt ↦ false ]

unfoldable pub ready : WorkCoordinator → ℕ → List Item
ready s now = select (λ r. deps_done s.rows r.deps) (order_by by_id (select (is_free now) s.rows))

abbrev pub is_allowed : List String → Item → Bool
is_allowed scopes r = contains scopes r.scope || (r.scope == "shared")

abbrev pub is_claimable : String → ℕ → Item → Bool
is_claimable k now r = has_id k r && is_free now r

abbrev pub mark_leased : String → ℕ → Item → Item
mark_leased agent until r = record r {
  status = leased;
  owner = agent;
  lease_until = until;
  attempt = suc r.attempt;
}

abbrev pub lease_row : WorkCoordinator → String → ℕ → ℕ → Item → WorkCoordinator
lease_row s agent ttl now row = record s {
  rows = update (is_claimable row.task_id now) (mark_leased agent (now + ttl)) s.rows;
}

abbrev pub new_claim : String → ℕ → Item → WorkClaim
new_claim agent until row = record {
  task_id = row.task_id;
  agent_id = agent;
  lease_until = until;
  attempt = suc row.attempt;
}

abbrev pub claimed : WorkCoordinator → WorkClaim → Option WorkClaim × WorkCoordinator
claimed s c =
    (some c, record s { audit = log s.audit (work_claimed c.agent_id c.task_id c.attempt) })

-- the loop of `claim` over the ready rows
unfoldable pub claim_rows :
    WorkCoordinator → String → List String → ℕ → ℕ → List Item → Option WorkClaim × WorkCoordinator
claim_rows s agent scopes ttl now [] = (none, s)
claim_rows s agent scopes ttl now (row ∷ rows) =
    let next = if is_allowed scopes row then lease_row s agent ttl now row else s in
    let rest = claim_rows next agent scopes ttl now rows in
    if not (is_allowed scopes row)
    then rest
    else if eqb (count (is_claimable row.task_id now) s.rows) 1
    then claimed next (new_claim agent (now + ttl) row)
    else rest

abbrev pub claim_reply :
    Option WorkClaim × WorkCoordinator → Result Error (Option WorkClaim) × WorkCoordinator
claim_reply (c, s) = (ok c, s)

unfoldable pub claim :
    WorkCoordinator
    → String
    → List String
    → ℕ
    → ℕ
    → Result Error (Option WorkClaim) × WorkCoordinator
claim s agent scopes ttl now =
    if (agent == "") || eqb ttl 0
    then (err value_error, s)
    else claim_reply (claim_rows s agent scopes ttl now (ready s now))

abbrev pub is_kept : String → String → ℕ → Item → Bool
is_kept k agent now r =
    has_id k r && is_leased r.status && (r.owner == agent) && leb now r.lease_until

unfoldable pub heartbeat : WorkCoordinator → String → String → ℕ → ℕ → Bool × WorkCoordinator
heartbeat s k agent ttl now = (
  eqb (count (is_kept k agent now) s.rows) 1,
  record s {
    rows = update (is_kept k agent now) (λ r. record r { lease_until = now + ttl }) s.rows;
  },
)

abbrev pub is_owned : String → String → Item → Bool
is_owned k agent r = has_id k r && is_leased r.status && (r.owner == agent)

unfoldable pub complete :
    (String → String) → WorkCoordinator → String → String → String → Bool × WorkCoordinator
complete sha256 s k agent result =
    let won = eqb (count (is_owned k agent) s.rows) 1 in
    (
      won,
      record {
        audit = if won then log s.audit (work_completed agent k (sha256 result)) else s.audit;
        rows =
            update (is_owned k agent)
              (λ r. record r {
                status = done;
                owner = agent;
                lease_until = 0;
                result_digest = sha256 result;
                result = result;
              })
              s.rows;
      },
    )

abbrev pub found_or_error : Option Item → Result Error Item
found_or_error none = err key_error
found_or_error (some r) = ok r

unfoldable pub status : WorkCoordinator → String → Result Error Item
status s k = found_or_error (fetchone (has_id k) s.rows)

abbrev pub is_expired : ℕ → Item → Bool
is_expired now r = is_leased r.status && ltb r.lease_until now

unfoldable pub reclaim_expired : WorkCoordinator → ℕ → ℕ × WorkCoordinator
reclaim_expired s now = (
  count (is_expired now) s.rows,
  record s {
    rows =
        update (is_expired now) (λ r. record r { status = pending; owner = ""; lease_until = 0 })
          s.rows;
  },
)

-- The calls of the class, each at its own reading of the clock.
pub data Call : Type 0 where
  add_call : String → List String → String → Call
  claim_call : String → List String → ℕ → Call
  heartbeat_call : String → String → ℕ → Call
  complete_call : String → String → String → Call
  reclaim_call : Call

unfoldable pub step : (String → String) → WorkCoordinator → ℕ → Call → WorkCoordinator
step sha256 s now (add_call k deps scope) = (add s k deps scope).1
step sha256 s now (claim_call agent scopes ttl) = (claim s agent scopes ttl now).1
step sha256 s now (heartbeat_call k agent ttl) = (heartbeat s k agent ttl now).1
step sha256 s now (complete_call k agent result) = (complete sha256 s k agent result).1
step sha256 s now reclaim_call = (reclaim_expired s now).1

unfoldable pub run : (String → String) → WorkCoordinator → List (ℕ × Call) → WorkCoordinator
run sha256 s [] = s
run sha256 s ((now, c) ∷ cs) = run sha256 (step sha256 s now c) cs
