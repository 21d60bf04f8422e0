-- ===== src/Nextgen/Context/Lineage.antt =====
-- The loop of `lineage` of noesis_harness/nextgen.py comes to an end, and goes from parent to child.
use mathlib.Core.List.{reverse}
use noesis_harness_agent_mem.Nextgen.Context.{
  MessageNode, has_id, next_node, ContextManager, walk, lineage, session_rows,
}
use noesis_harness_agent_mem.Table.{count, fetchone}
use noesis_harness_agent_mem.Prelude.{
  Bool-cases, Option-cases, length, contains, ℕ, zero, suc, ◌≤◌, ◌<◌, String, ◌≡◌, refl, sym, ap,
  ◌∙◌, ◌⊎◌, inl, inr, Bool, true, false, ◌||◌, not, Option, none, some, List, [], ◌∷◌, arith, ◌==◌,
  eq_iff,
}

some_clash : (node : MessageNode) → ◌≡◌ {A = Option MessageNode} none (some node) → ⊥
some_clash node e = cc

-- the identifier of the node has not been seen
abbrev unseen : List String → MessageNode → Bool
unseen seen r = not (contains seen r.id)

count-unseen_le :
    (seen : List String) (cur : String) (nodes : List MessageNode)
    → count (unseen (cur ∷ seen)) nodes ≤ count (unseen seen) nodes
unfolding count
count-unseen_le seen cur [] = omega arith
count-unseen_le seen cur (r ∷ rs) = ground (arith, count-unseen_le seen cur rs)

-- a step to a node that was not seen leaves fewer
count-unseen_lt :
    (seen : List String) (cur : String) (nodes : List MessageNode) (node : MessageNode)
    → contains seen cur ≡ false
    → fetchone (has_id cur) nodes ≡ some node
    → count (unseen (cur ∷ seen)) nodes < count (unseen seen) nodes
unfolding count fetchone
count-unseen_lt seen cur [] node fresh found = cc
count-unseen_lt seen cur (r ∷ rs) node fresh found = elim (Bool-cases (has_id cur r)) [
  | inl here ↦
      let same = (eq_iff r.id cur).0 here in
      let fresh_here : contains seen r.id ≡ false = ap (contains seen) same ∙ fresh in
      let hit : (cur == r.id) ≡ true = (eq_iff cur r.id).1 (sym same) in
      ground (arith, fresh_here, hit, count-unseen_le seen cur rs)
  | inr apart ↦ ground (
    arith,
    count-unseen_lt seen cur rs node fresh (rw apart at found),
    count-unseen_le seen cur rs,
  )
]

-- a node that `walk` goes to was not seen before
next_node-fresh :
    (nodes : List MessageNode) (seen : List String) (cur : String) (node : MessageNode)
    → next_node nodes seen cur ≡ some node
    → (contains seen cur ≡ false) × (fetchone (has_id cur) nodes ≡ some node)
next_node-fresh nodes seen cur node e = elim (Bool-cases ((cur == "") || contains seen cur)) [
  | inl stop ↦ absurd (some_clash node (rw stop at e))
  | inr go ↦ (ground (arith, go), rw go at e)
]

-- The nodes from `cur` upwards, each the parent of the one before it and none twice, to where the
-- parent is empty, is not in the session, or closes a cycle.
abbrev pub Rising : List MessageNode → List String → String → List MessageNode → Type 0
Rising nodes seen cur [] =
    (cur ≡ "") ⊎ ((contains seen cur ≡ true) ⊎ (fetchone (has_id cur) nodes ≡ none))
Rising nodes seen cur (n ∷ ns) =
    (contains seen cur ≡ false)
    × (fetchone (has_id cur) nodes ≡ some n)
    × Rising nodes (cur ∷ seen) n.parent_id ns

stopped :
    (nodes : List MessageNode) (seen : List String) (cur : String)
    → next_node nodes seen cur ≡ none
    → Rising nodes seen cur []
stopped nodes seen cur e = elim (Bool-cases (cur == "")) [
  | inl empty ↦ inl ((eq_iff cur "").0 empty)
  | inr named ↦ elim (Bool-cases (contains seen cur)) [
    | inl back ↦ inr (inl back)
    | inr fresh ↦ inr (inr (rw (named, fresh) at e))
  ]
]

walk-Rising :
    (n : ℕ) (nodes : List MessageNode) (seen : List String) (cur : String)
    → count (unseen seen) nodes < n
    → (out : List MessageNode) × (walk n nodes seen cur ≡ some out) × Rising nodes seen cur out
unfolding walk
walk-Rising zero nodes seen cur few = absurd (omega (arith, few))
walk-Rising (suc n) nodes seen cur few = elim (Option-cases (next_node nodes seen cur)) [
  | inl stop ↦ ([], rw stop refl, stopped nodes seen cur stop)
  | inr (node, step) ↦
      let (fresh, found) = next_node-fresh nodes seen cur node step in
      let fewer = count-unseen_lt seen cur nodes node fresh found in
      let (out, rest, path) =
        walk-Rising n nodes (cur ∷ seen) node.parent_id (omega (arith, few, fewer)) in
      (node ∷ out, rw step (rw rest refl), (fresh, found, path))
]

count_le_length : (p : MessageNode → Bool) (nodes : List MessageNode) → count p nodes ≤ length nodes
unfolding count
count_le_length p [] = omega arith
count_le_length p (r ∷ rs) = ground (arith, count_le_length p rs)

-- From any leaf with a name, `lineage` comes to an end, within one round more than the session has
-- messages, and returns the way from the leaf to its root in reverse: each node's parent before it,
-- no node twice, up to a parent that is empty, is not in the session, or closes a cycle.
pub lineage-Rising :
    (s : ContextManager) (session_id leaf_id : String)
    → (leaf_id == "") ≡ false
    → (out : List MessageNode) × (lineage s session_id leaf_id ≡ some (reverse out))
      × Rising (session_rows s session_id) [] leaf_id out
unfolding lineage
lineage-Rising s session_id leaf_id named =
    let nodes = session_rows s session_id in
    let (out, walked, path) =
      walk-Rising (suc (length nodes)) nodes [] leaf_id
        (omega (arith, count_le_length (unseen []) nodes)) in
    (out, rw named (rw walked refl), path)
