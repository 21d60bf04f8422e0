-- ===== src/Coordination/Actions.antt =====
-- class Actions of noesis_harness/coordination.py. A method takes the two tables, the clock and the
-- identifier that uuid4 would draw, and returns its result beside the new tables.

pub mod Unblock
pub mod Completing
pub mod Requiring
pub mod Ranking
pub mod Waiting
use noesis_harness_agent_mem.Prelude.{
  ℕ, ◌+◌, String, Bool, true, false, Option, List, [], ◌∷◌, ◌++◌, map, ◌&&◌, ◌||◌, not, ◌==◌, ltb,
  leb, eqb, if◌then◌else◌, take, Result, ok, err, is_some,
}
use noesis_harness_agent_mem.Table.{select, fetchone, count, update, order_by}
use noesis_harness_agent_mem.Table.Sorting.{head?}

pub data Status : Type 0 where
  pending active done blocked cancelled : Status

pub record Action : Type 0 where
  pub id : String
  pub title : String
  pub status : Status
  pub assigned_to : String
  pub priority : ℕ
  pub created_at : ℕ

pub record Edge : Type 0 where
  pub from_id : String
  pub to_id : String
  pub kind : String

pub record Actions : Type 0 where
  pub actions : List Action
  pub edges : List Edge

pub data Error : Type 0 where
  action_id_required integrity_error : Error

abbrev pub is_pending : Status → Bool
is_pending pending = true
is_pending active = false
is_pending done = false
is_pending blocked = false
is_pending cancelled = false

abbrev pub is_active : Status → Bool
is_active pending = false
is_active active = true
is_active done = false
is_active blocked = false
is_active cancelled = false

abbrev pub is_done : Status → Bool
is_done pending = false
is_done active = false
is_done done = true
is_done blocked = false
is_done cancelled = false

abbrev pub is_blocked : Status → Bool
is_blocked pending = false
is_blocked active = false
is_blocked done = false
is_blocked blocked = true
is_blocked cancelled = false

-- WHERE id=?
abbrev pub has_id : String → Action → Bool
has_id k r = r.id == k

abbrev pub same_edge : Edge → Edge → Bool
same_edge e x = (x.from_id == e.from_id) && (x.to_id == e.to_id) && (x.kind == e.kind)

-- INSERT OR IGNORE INTO action_edges
unfoldable pub add_edge : List Edge → Edge → List Edge
add_edge edges e = if is_some (fetchone (same_edge e) edges) then edges else edges ++ e ∷ []

-- the loop over `requires`
unfoldable pub add_edges : String → List String → List Edge → List Edge
unfolding add_edge
add_edges aid [] edges = edges
add_edges aid (dep ∷ deps) edges =
    add_edges aid deps (add_edge edges (record { from_id = dep; to_id = aid; kind = "requires" }))

abbrev is_empty {ℓ} : {A : Type ℓ} → List A → Bool
is_empty [] = true
is_empty (x ∷ xs) = false

unfoldable pub create :
    Actions → String → ℕ → List String → String → String → ℕ → Result Error String × Actions
unfolding add_edges
create s title priority requires action_id fresh now =
    let aid = if action_id == "" then fresh else action_id in
    let row : Action = record {
      id = aid;
      title = title;
      status = if is_empty requires then pending else blocked;
      assigned_to = "";
      priority = priority;
      created_at = now;
    } in
    if aid == ""
    then (err action_id_required, s)
    else if is_some (fetchone (has_id aid) s.actions)
    then (err integrity_error, s)
    else (
      ok aid,
      record { actions = s.actions ++ row ∷ []; edges = add_edges aid requires s.edges },
    )

-- SELECT COUNT(*) FROM action_edges e JOIN actions a ON a.id=e.from_id
-- WHERE e.to_id=? AND e.kind='requires' AND a.status!='done'
unfoldable pub unmet : List Edge → List Action → String → ℕ
unmet [] actions t = 0
unmet (e ∷ es) actions t =
    (if (e.to_id == t) && (e.kind == "requires")
      then count (λ a. (a.id == e.from_id) && not (is_done a.status)) actions
      else 0)
    + unmet es actions t

-- one round of the loop of `complete`
unfoldable pub unblock : List Edge → List Action → String → List Action
unfolding unmet
unblock edges actions t =
    if eqb (unmet edges actions t) 0
    then update (λ r. (r.id == t) && is_blocked r.status) (λ r. record r { status = pending })
        actions
    else actions

unfoldable pub unblock_all : List Edge → List String → List Action → List Action
unfolding unblock
unblock_all edges [] actions = actions
unblock_all edges (t ∷ ts) actions = unblock_all edges ts (unblock edges actions t)

-- SELECT to_id FROM action_edges WHERE from_id=? AND kind='requires'
unfoldable pub dependents : List Edge → String → List String
dependents edges aid =
    map (λ e. e.to_id) (select (λ e. (e.from_id == aid) && (e.kind == "requires")) edges)

unfoldable pub complete : Actions → String → Actions
unfolding unblock_all dependents
complete s aid = record s {
  actions =
      unblock_all s.edges (dependents s.edges aid)
        (update (has_id aid) (λ r. record r { status = done }) s.actions);
}

-- ORDER BY priority DESC, created_at
abbrev pub ranked : Action → Action → Bool
ranked a b =
    ltb b.priority a.priority || (eqb b.priority a.priority && leb a.created_at b.created_at)

unfoldable pub frontier : Actions → ℕ → List Action
frontier s limit =
    let rows = order_by ranked (select (λ r. is_pending r.status) s.actions) in
    if eqb limit 0 then rows else take limit rows

unfoldable pub next : Actions → Option Action
unfolding frontier
next s = head? (frontier s 1)

-- UPDATE ... WHERE id=? AND status='pending'
abbrev pub claimable : String → Action → Bool
claimable aid r = (r.id == aid) && is_pending r.status

unfoldable pub claim : Actions → String → String → Bool × Actions
claim s aid agent = (
  ltb 0 (count (claimable aid) s.actions),
  record s {
    actions =
        update (claimable aid) (λ r. record r { status = active; assigned_to = agent }) s.actions;
  },
)

-- UPDATE ... WHERE id=? AND status='active' AND assigned_to=?
abbrev pub requeueable : String → String → Action → Bool
requeueable aid agent r = (r.id == aid) && is_active r.status && (r.assigned_to == agent)

unfoldable pub requeue : Actions → String → String → Bool × Actions
requeue s aid agent = (
  ltb 0 (count (requeueable aid agent) s.actions),
  record s {
    actions =
        update (requeueable aid agent) (λ r. record r { status = pending; assigned_to = "" })
          s.actions;
  },
)
