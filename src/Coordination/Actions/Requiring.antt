-- ===== src/Coordination/Actions/Requiring.antt =====
-- The edges that Actions.create of noesis_harness/coordination.py adds, as requirements.
use noesis_harness_agent_mem.Coordination.Actions.{Edge, add_edges, Action, same_edge, add_edge}
use noesis_harness_agent_mem.Prelude.{
  is_some, Bool-cases, ==_ne, contains, String, ◌≡◌, refl, ◌∙◌, ◌≢◌, inl, inr, true, ◌&&◌, ◌||◌,
  List, [], ◌∷◌, ◌++◌, arith, ◌==◌, eq_iff, eq_refl,
}
use noesis_harness_agent_mem.Table.{fetchone}
use noesis_harness_agent_mem.Coordination.Actions.Completing.{
  requires, is_requirement, finished, satisfied,
}

-- what `same_edge` compares
same_edge-requirement :
    (x e : Edge) (t k : String)
    → e.kind ≡ "requires"
    → same_edge e x ≡ true
    → is_requirement t k x ≡ ((e.to_id == t) && (e.from_id == k))
same_edge-requirement x e t k own same =
    let source : x.from_id ≡ e.from_id = (eq_iff x.from_id e.from_id).0 (ground (arith, same)) in
    let target : x.to_id ≡ e.to_id = (eq_iff x.to_id e.to_id).0 (ground (arith, same)) in
    let kind : x.kind ≡ "requires" = (eq_iff x.kind e.kind).0 (ground (arith, same)) ∙ own in
    rw (source, target, kind) (ground (arith, eq_refl "requires"))

requires-there :
    (edges : List Edge) (e : Edge) (t k : String)
    → e.kind ≡ "requires"
    → is_some (fetchone (same_edge e) edges) ≡ true
    → requires edges t k ≡ (requires edges t k || ((e.to_id == t) && (e.from_id == k)))
unfolding requires fetchone
requires-there [] e t k own there = cc
requires-there (x ∷ es) e t k own there = elim (Bool-cases (same_edge e x)) [
  | inl same ↦ rw (same_edge-requirement x e t k own same) (ground arith)
  | inr apart ↦ let rest = requires-there es e t k own (rw apart at there) in ground (arith, rest)
]

requires-append :
    (edges : List Edge) (e : Edge) (t k : String)
    → e.kind ≡ "requires"
    → requires (edges ++ e ∷ []) t k ≡ (requires edges t k || ((e.to_id == t) && (e.from_id == k)))
unfolding requires
requires-append [] e t k own = rw own (ground (arith, eq_refl "requires"))
requires-append (x ∷ es) e t k own = ground (arith, requires-append es e t k own)

requires-add_edge :
    (edges : List Edge) (e : Edge) (t k : String)
    → e.kind ≡ "requires"
    → requires (add_edge edges e) t k ≡ (requires edges t k || ((e.to_id == t) && (e.from_id == k)))
requires-add_edge edges e t k own = elim (Bool-cases (is_some (fetchone (same_edge e) edges))) [
  | inl there ↦ unfold add_edge in rw there (requires-there edges e t k own there)
  | inr new ↦ unfold add_edge in rw new (requires-append edges e t k own)
]

pub requires-add_edges :
    (aid : String) (deps : List String) (edges : List Edge) (t k : String)
    → requires (add_edges aid deps edges) t k
      ≡ (requires edges t k || ((aid == t) && contains deps k))
unfolding add_edges
requires-add_edges aid [] edges t k = ground arith
requires-add_edges aid (d ∷ deps) edges t k =
    let e : Edge = record { from_id = d; to_id = aid; kind = "requires" } in
    ground (
      arith,
      requires-add_edges aid deps (add_edge edges e) t k,
      requires-add_edge edges e t k refl,
    )

-- where all that `t` requires is done, completing one of them finds nothing left
pub satisfied-all :
    (es : List Edge) (actions : List Action) (k t : String)
    → ((x : String) → requires es t x ≡ true → finished actions x ≡ true)
    → satisfied es actions k t ≡ true
unfolding satisfied requires
satisfied-all [] actions k t all = refl
satisfied-all (e ∷ es) actions k t all =
    ground (arith, satisfied-all es actions k t (λ x h. all x (ground (arith, h))), all e.from_id)

pub finished-append :
    (xs : List Action) (r : Action) (k : String)
    → r.id ≢ k
    → finished (xs ++ r ∷ []) k ≡ finished xs k
unfolding finished
finished-append [] r k apart = rw (==_ne r.id k apart) refl
finished-append (x ∷ xs) r k apart = ground (arith, finished-append xs r k apart)
