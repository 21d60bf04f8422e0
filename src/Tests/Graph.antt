-- ===== src/Tests/Graph.antt =====
-- The memory graph of noesis_harness/graph.py on concrete edges.
use noesis_harness_agent_mem.Prelude.{ok, String, ◌≡◌, refl, List, [], ◌∷◌, map}
use noesis_harness_agent_mem.Table.{select, fetchone, order_by, insert_by}
use noesis_harness_agent_mem.Graph.{Edge, link, neighbors, walk, rounds, visit_nodes, visit_edges}

program : Unit {0}
unfolding link neighbors walk rounds visit_nodes visit_edges select fetchone order_by insert_by
program = tt

abbrev edge : String → String → String → String → Edge
edge id subj pred obj = record { id = id; subj = subj; pred = pred; obj = obj; created_at = 1 }

abbrev one : List Edge
one = (link [] (edge "1" "a" "knows" "b")).1

abbrev two : List Edge
two = (link one (edge "2" "b" "likes" "c")).1

linked_twice : link two (edge "3" "a" "knows" "b") ≡ (ok "1", two)
unfolding program
linked_twice = refl

other_pred : map (λ e. e.id) (neighbors two "b" "knows") ≡ "1" ∷ "2" ∷ []
unfolding program
other_pred = refl

-- an edge is returned once for each of its ends that is reached
walked : map (λ e. e.id) (walk two "a" 2).1 ≡ "1" ∷ "1" ∷ "2" ∷ []
unfolding program
walked = refl

reached : (walk two "a" 2).0 ≡ "a" ∷ "b" ∷ "c" ∷ []
unfolding program
reached = refl
