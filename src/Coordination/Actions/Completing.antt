-- ===== src/Coordination/Actions/Completing.antt =====
-- What Actions.complete of noesis_harness/coordination.py is to make of each row, told by the edges
-- and the rows alone.
use noesis_harness_agent_mem.Coordination.Actions.{
  unmet, Edge, Actions, dependents, Action, complete, is_done, has_id, done, is_blocked, pending,
}
use noesis_harness_agent_mem.Prelude.{
  eqb, if◌then◌else◌, Bool-cases, contains, String, ◌≡◌, refl, ◌∙◌, inl, inr, Bool, true, false,
  ◌&&◌, ◌||◌, not, List, [], ◌∷◌, map, arith, ◌==◌, eq_iff, eq_refl,
}
use noesis_harness_agent_mem.Table.{count, update, select}
use noesis_harness_agent_mem.Coordination.Actions.Unblock.{promoted, map-update, unblock_all-eq-map}

-- the edge says that `t` requires `k`
abbrev pub is_requirement : String → String → Edge → Bool
is_requirement t k e = (e.kind == "requires") && (e.from_id == k) && (e.to_id == t)

-- some edge says so
unfoldable pub requires : List Edge → String → String → Bool
requires [] t k = false
requires (e ∷ es) t k = is_requirement t k e || requires es t k

-- the action `k`, where there is one, is done
unfoldable pub finished : List Action → String → Bool
finished [] k = true
finished (a ∷ rest) k = (not (a.id == k) || is_done a.status) && finished rest k

-- all that `t` requires is done or is `aid`
unfoldable pub satisfied : List Edge → List Action → String → String → Bool
satisfied [] actions aid t = true
satisfied (e ∷ es) actions aid t =
    (not (is_requirement t e.from_id e) || (e.from_id == aid) || finished actions e.from_id)
    && satisfied es actions aid t

-- what `complete aid` is to make of a row
abbrev pub completed : Actions → String → Action → Action
completed s aid r =
    if r.id == aid
    then record r { status = done }
    else if is_blocked r.status && requires s.edges r.id aid && satisfied s.edges s.actions aid r.id
    then record r { status = pending }
    else r

dependents-requires :
    (edges : List Edge) (aid t : String) → contains (dependents edges aid) t ≡ requires edges t aid
unfolding dependents requires select
dependents-requires [] aid t = refl
dependents-requires (e ∷ es) aid t =
    ground (arith, dependents-requires es aid t, eq_iff e.to_id t, eq_iff t e.to_id)

count-finished :
    (k : String) (actions : List Action)
    → eqb (count (λ a. (a.id == k) && not (is_done a.status)) actions) 0 ≡ finished actions k
unfolding finished count
count-finished k [] = ground arith
count-finished k (a ∷ rest) = ground (arith, count-finished k rest)

-- once `aid` is done
finished-done :
    (aid k : String) (actions : List Action)
    → finished (update (has_id aid) (λ x. record x { status = done }) actions) k
      ≡ ((k == aid) || finished actions k)
unfolding finished update
finished-done aid k [] = ground arith
finished-done aid k (a ∷ rest) = elim (Bool-cases (a.id == aid)) [
  | inr other ↦ rw other (
      ground (arith, finished-done aid k rest, other, eq_iff a.id k, eq_iff k aid, eq_iff a.id aid))
  | inl own ↦
      rw own (
        ground (arith, finished-done aid k rest, own, eq_iff a.id k, eq_iff k aid, eq_iff a.id aid))
]

unmet-satisfied :
    (edges : List Edge) (actions : List Action) (aid t : String)
    → eqb (unmet edges (update (has_id aid) (λ x. record x { status = done }) actions) t) 0
      ≡ satisfied edges actions aid t
unfolding unmet satisfied
unmet-satisfied [] actions aid t = refl
unmet-satisfied (e ∷ es) actions aid t = ground (
  arith,
  unmet-satisfied es actions aid t,
  count-finished e.from_id (update (has_id aid) (λ x. record x { status = done }) actions),
  finished-done aid e.from_id actions,
  eq_refl e.from_id,
)

-- The state of each action after `complete aid`: the action itself is done; a blocked one that
-- requires it by some edge, and whose other requirements (those that exist) are all done, is pending;
-- every other action is as it was.
pub complete-eq-map :
    (s : Actions) (aid : String) → (complete s aid).actions ≡ map (completed s aid) s.actions
unfolding complete
complete-eq-map s aid =
    unblock_all-eq-map s.edges (satisfied s.edges s.actions aid) (dependents s.edges aid)
      (update (has_id aid) (λ x. record x { status = done }) s.actions)
      (unmet-satisfied s.edges s.actions aid)
    ∙ map-update (promoted (satisfied s.edges s.actions aid) (dependents s.edges aid))
        (completed s aid) (has_id aid) (λ x. record x { status = done }) s.actions
        (λ r. ground (arith, dependents-requires s.edges aid r.id))
