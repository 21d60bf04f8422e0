-- ===== src/Tests/Actions.antt =====
-- Actions of noesis_harness/coordination.py on concrete tables.

use noesis_harness_agent_mem.Prelude.{
  ok, text_ne, contains, String, ◌≡◌, refl, ◌≢◌, true, false, none, some, List, [], ◌∷◌, map, arith,
  eq_iff,
}
use mathlib.Core.Option
use mathlib.Core.Path.{subst}
use noesis_harness_agent_mem.Table.{select, fetchone, count, update, order_by}
use noesis_harness_agent_mem.Coordination.Actions.{
  Action, Actions, Status, pending, blocked, has_id, create, complete, frontier, next, claim,
  requeue,
}
use noesis_harness_agent_mem.Coordination.Actions.Completing.{
  requires, finished, completed, complete-eq-map,
}
use noesis_harness_agent_mem.Coordination.Actions.Waiting.{complete_all, create-waits}

program : Unit {0}
unfolding create complete frontier next claim requeue select fetchone count update order_by
    complete_all
program = tt

abbrev empty : Actions
empty = record { actions = []; edges = [] }

abbrev fetch : Actions
fetch = (create empty "fetch candidate" 5 [] "" "a" 1).1

abbrev score : Actions
score = (create fetch "score candidate" 7 ("a" ∷ []) "" "b" 2).1

status_of : String → Actions → List Status
status_of k s = statuses (select (has_id k) s.actions)
  where
    statuses : List Action → List Status
    statuses [] = []
    statuses (r ∷ rs) = r.status ∷ statuses rs

-- the example of docs/architecture.md: completing `a` unblocks `b`
unblocks :
    (status_of "b" score ≡ blocked ∷ []) × (status_of "b" (complete score "a") ≡ pending ∷ [])
unfolding program status_of
unblocks = (refl, refl)

claimed_once :
    ((claim fetch "a" "worker-1").0 ≡ true)
    × ((claim (claim fetch "a" "worker-1").1 "a" "worker-2").0 ≡ false)
unfolding program
claimed_once = (refl, refl)

abbrev fetched : Action
fetched = record {
  id = "a";
  title = "fetch candidate";
  status = pending;
  assigned_to = "";
  priority = 5;
  created_at = 1;
}

ranked_first : next score ≡ some fetched
unfolding program
ranked_first = refl

abbrev finished_ones : Actions
finished_ones = complete (complete score "a") "b"

no_edges_to_c : (x : String) → requires finished_ones.edges "c" x ≡ false
unfolding program requires
no_edges_to_c x = ground arith

b_done :
    (x : String)
    → contains ("b" ∷ []) x ≡ true
    → (x ≢ "c") × (finished finished_ones.actions x ≡ true)
unfolding program finished
b_done x h =
    let own : "b" ≡ x = (eq_iff "b" x).0 (ground (arith, h)) in
    subst (λ y. (y ≢ "c") × (finished finished_ones.actions y ≡ true)) own
      (text_ne "b" "c" refl, refl)

c_free : fetchone (has_id "c") finished_ones.actions ≡ none
unfolding program
c_free = refl

create-waits_example :
    ((create finished_ones "draft reply" 5 ("b" ∷ []) "c" "" 3).0 ≡ ok "c")
    × (Option.map
          (λ (r : Action). r.status)
          (fetchone
            (has_id "c")
            (complete_all
              (create finished_ones "draft reply" 5 ("b" ∷ []) "c" "" 3).1
              ("a" ∷ [])).actions)
        ≡ some blocked)
    × (Option.map
          (λ (r : Action). r.status)
          (fetchone
            (has_id "c")
            (complete
              (complete_all (create finished_ones "draft reply" 5 ("b" ∷ []) "c" "" 3).1 ("a" ∷ []))
              "b").actions)
        ≡ some pending)
create-waits_example =
    create-waits finished_ones "draft reply" 5 "b" [] "c" "" "c" 3 ("a" ∷ []) "b" refl
      (text_ne "c" "" refl) c_free no_edges_to_c b_done ((text_ne "a" "c" refl, refl), tt) refl

complete-eq-map_example : (complete score "a").actions ≡ map (completed score "a") score.actions
complete-eq-map_example = complete-eq-map score "a"
