-- ===== src/Graph.antt =====
-- class MemoryGraph of noesis_harness/graph.py. The identifier that uuid4 draws is an argument.
pub mod Edges
use noesis_harness_agent_mem.Table.{select, fetchone, order_by}
use noesis_harness_agent_mem.Prelude.{
  ok, err, if◌then◌else◌, is_some, contains, le_text, Result, ℕ, zero, suc, max, String, Bool, ◌&&◌,
  ◌||◌, Option, none, some, List, [], ◌∷◌, ◌++◌, ◌==◌,
}

pub record Edge : Type 0 where
  pub id : String
  pub subj : String
  pub pred : String
  pub obj : String
  pub created_at : ℕ

pub data Error : Type 0 where
  integrity_error : Error

abbrev pub is_edge : String → String → String → Edge → Bool
is_edge subj pred obj e = (e.subj == subj) && (e.pred == pred) && (e.obj == obj)

abbrev pub insert_edge : List Edge → Edge → Result Error String × List Edge
insert_edge edges e =
    if is_some (fetchone (λ (r : Edge). r.id == e.id) edges)
    then (err integrity_error, edges)
    else (ok e.id, edges ++ e ∷ [])

abbrev pub link_at : List Edge → Edge → Option Edge → Result Error String × List Edge
link_at edges e (some row) = (ok row.id, edges)
link_at edges e none = insert_edge edges e

-- `e` with the fresh identifier and the clock
unfoldable pub link : List Edge → Edge → Result Error String × List Edge
link edges e = link_at edges e (fetchone (is_edge e.subj e.pred e.obj) edges)

-- the WHERE clause as SQLite reads it: AND binds tighter than OR
abbrev pub touches : String → String → Edge → Bool
touches node pred e =
    if pred == ""
    then (e.subj == node) || (e.obj == node)
    else (e.subj == node) || ((e.obj == node) && (e.pred == pred))

unfoldable pub neighbors : List Edge → String → String → List Edge
neighbors edges node pred = select (touches node pred) edges

-- the nodes that were seen, those of the next frontier, and the edges, in the order of the source
pub record Walk : Type 0 where
  pub seen : List String
  pub nxt : List String
  pub edges : List Edge

abbrev pub other_end : String → Edge → String
other_end node e = if e.subj == node then e.obj else e.subj

abbrev pub visit : String → Edge → Walk → Walk
visit node e w =
    let other = other_end node e in
    if contains w.seen other then record w { edges = w.edges ++ e ∷ [] } else record {
      seen = w.seen ++ other ∷ [];
      nxt = w.nxt ++ other ∷ [];
      edges = w.edges ++ e ∷ [];
    }

unfoldable pub visit_edges : String → List Edge → Walk → Walk
visit_edges node [] w = w
visit_edges node (e ∷ es) w = visit_edges node es (visit node e w)

unfoldable pub visit_nodes : List Edge → List String → Walk → Walk
visit_nodes edges [] w = w
visit_nodes edges (n ∷ ns) w = visit_nodes edges ns (visit_edges n (neighbors edges n "") w)

-- the rounds of `walk`
unfoldable pub rounds : ℕ → List Edge → List String → Walk → Walk
rounds zero edges frontier w = w
rounds (suc n) edges frontier w =
    let w' = visit_nodes edges frontier (record w { nxt = [] }) in rounds n edges w'.nxt w'

unfoldable pub walk : List Edge → String → ℕ → List String × List Edge
walk edges start depth =
    let w =
      rounds (max 1 depth) edges (start ∷ [])
        (record { seen = start ∷ []; nxt = []; edges = [] }) in
    (order_by le_text w.seen, w.edges)
