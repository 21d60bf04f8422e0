-- ===== src/Graph/Edges.antt =====
-- The edges that `link` of noesis_harness/graph.py keeps, and those that `neighbors` returns.
use noesis_harness_agent_mem.Table.{select, count, fetchone}
use noesis_harness_agent_mem.Graph.{Edge, link, neighbors, is_edge, touches, link_at}
use noesis_harness_agent_mem.Prelude.{
  is_some, Bool-cases, ◌≤◌, String, ◌≡◌, refl, inl, inr, true, Option, none, some, List, [], ◌∷◌,
  ◌++◌, arith, ◌==◌, eq_iff, eq_refl,
}
use noesis_harness_agent_mem.Table.Counting.{
  count-append, count-eq-zero_of_fetchone, count-imp-le, count-single,
}

-- No two edges have the same ends and the same predicate.
abbrev pub Distinct : List Edge → Type 0
Distinct edges = (subj pred obj : String) → count (is_edge subj pred obj) edges ≤ 1

-- an edge that is new is the only one of its ends and predicate
added-Distinct :
    (edges : List Edge) (e : Edge)
    → fetchone (is_edge e.subj e.pred e.obj) edges ≡ none
    → Distinct edges
    → Distinct (edges ++ e ∷ [])
added-Distinct edges e free v subj pred obj =
    let p = is_edge subj pred obj in
    elim (Bool-cases (p e)) [
      | inr other ↦
          let alone : count p (e ∷ []) ≡ 0 = unfold count in rw other refl in
          omega (arith, count-append p edges (e ∷ []), alone, v subj pred obj)
      | inl same ↦
          let none_yet = count-eq-zero_of_fetchone (is_edge e.subj e.pred e.obj) edges free in
          let fewer = count-imp-le p (is_edge e.subj e.pred e.obj) edges (λ r h. ground (
            arith,
            same,
            h,
            eq_iff e.subj subj,
            eq_iff e.pred pred,
            eq_iff e.obj obj,
            eq_iff r.subj subj,
            eq_iff r.pred pred,
            eq_iff r.obj obj,
            eq_iff r.subj e.subj,
            eq_iff r.pred e.pred,
            eq_iff r.obj e.obj,
          )) in
          omega (arith, count-append p edges (e ∷ []), count-single p e, none_yet, fewer)
    ]

link_at-Distinct :
    (edges : List Edge) (e : Edge) (o : Option Edge)
    → fetchone (is_edge e.subj e.pred e.obj) edges ≡ o
    → Distinct edges
    → Distinct (link_at edges e o).1
link_at-Distinct edges e (some row) found v subj pred obj = v subj pred obj
link_at-Distinct edges e none found v subj pred obj =
    elim (Bool-cases (is_some (fetchone (λ (r : Edge). r.id == e.id) edges))) [
      | inl taken ↦ rw taken (v subj pred obj)
      | inr fresh ↦ rw fresh (added-Distinct edges e found v subj pred obj)
    ]

-- `link` keeps the edges distinct.
pub link-Distinct : (edges : List Edge) (e : Edge) → Distinct edges → Distinct (link edges e).1
unfolding link
link-Distinct edges e v =
    link_at-Distinct edges e (fetchone (is_edge e.subj e.pred e.obj) edges) refl v

-- An edge that starts at the node is returned whatever predicate is asked for.
pub neighbors-any_pred :
    (edges : List Edge) (e : Edge) (pred : String)
    → neighbors (e ∷ edges) e.subj pred ≡ e ∷ neighbors edges e.subj pred
unfolding neighbors select
neighbors-any_pred edges e pred =
    let own = eq_refl e.subj in
    let hit : touches e.subj pred e ≡ true = ground (arith, own) in rw hit refl
