-- ===== src/Nextgen/Context/Packing.antt =====
-- `pack` of class ContextManager of noesis_harness/nextgen.py. The lists `parts` and `selected` are
-- kept in the order that they have after the two calls of `reverse` at the end: the newest first.
use mathlib.Core.Path.{subst}
use noesis_harness_agent_mem.Table.{order_by, select}
use noesis_harness_agent_mem.Nextgen.Context.{
  ContextManager, MessageNode, Block, Error, reverse, lineage, value_error,
}
use noesis_harness_agent_mem.Prelude.{
  ok, err, ltb, if◌then◌else◌, Bool-cases, length, contains, len, concat, le_text, join, total,
  len-join, Result, ok_injective, ok-ne-err, ℕ, ◌+◌, ◌-◌, ◌*◌, ◌≤◌, String, ◌≡◌, refl, sym, inl,
  inr, false, ◌||◌, not, Option, none, some, List, [], ◌∷◌, arith, ◌==◌,
}

pub data Selected : Type 0 where
  block : String → Selected
  message : String → List String → Selected

pub record Packing : Type 0 where
  pub parts : List String
  pub used : ℕ
  pub selected : List Selected

pub record Packed : Type 0 where
  pub text : String
  pub used_chars : ℕ
  pub budget : ℕ
  pub selected : List Selected

abbrev pub put : String → Selected → Packing → Packing
put text sel p = record {
  parts = text ∷ p.parts;
  used = p.used + len text;
  selected = sel ∷ p.selected;
}

abbrev pub block_text : Block → String
block_text b = concat "[" (concat b.name (concat "]\n" b.content))

abbrev pub node_text : MessageNode → String
node_text n = concat n.role (concat ": " n.content)

-- the loop over the blocks stops at the first that does not fit
unfoldable pub pack_blocks : ℕ → List Block → Packing → Packing
pack_blocks max_chars [] p = p
pack_blocks max_chars (b ∷ bs) p =
    let rest = pack_blocks max_chars bs (put (block_text b) (block b.name) p) in
    if ltb max_chars (p.used + len (block_text b)) then p else rest

-- the loop over the messages goes on past one that does not fit
unfoldable pub pack_nodes : ℕ → List String → List MessageNode → Packing → Packing
pack_nodes max_chars include_kinds [] p = p
pack_nodes max_chars include_kinds (n ∷ ns) p =
    let taken =
      pack_nodes max_chars include_kinds ns (put (node_text n) (message n.id n.source_ids) p) in
    let left = pack_nodes max_chars include_kinds ns p in
    if not (contains include_kinds n.kind) || ltb max_chars (p.used + len (node_text n))
    then left
    else taken

abbrev pub blocks_of : ContextManager → String → List Block
blocks_of s agent_id =
    if agent_id == ""
    then []
    else (order_by (λ (a b : Block). le_text a.name b.name)
        (select (λ (b : Block). b.agent_id == agent_id) s.context_blocks))

abbrev pub nodes_of : Option (List MessageNode) → List MessageNode
nodes_of none = []
nodes_of (some nodes) = nodes

unfoldable pub pack : ContextManager → String → ℕ → String → List String → Result Error Packed
pack s session_id max_chars agent_id include_kinds =
    let start : Packing = record { parts = []; used = 0; selected = [] } in
    let blocks = pack_blocks max_chars (blocks_of s agent_id) start in
    let p =
      pack_nodes max_chars include_kinds (reverse (nodes_of (lineage s session_id ""))) blocks in
    if ltb max_chars 1
    then err value_error
    else ok (record {
      text = join "\n\n" p.parts;
      used_chars = p.used;
      budget = max_chars;
      selected = p.selected;
    })

-- what is used is the lengths of the parts, within the budget, and each part is accounted for
record Fits (max_chars : ℕ) (p : Packing) : Type 0 where
  spent : p.used ≡ total p.parts
  within : p.used ≤ max_chars
  listed : length p.selected ≡ length p.parts

put-Fits :
    (max_chars : ℕ) (text : String) (sel : Selected) (p : Packing)
    → ltb max_chars (p.used + len text) ≡ false
    → Fits max_chars p
    → Fits max_chars (put text sel p)
put-Fits max_chars text sel p fits v = record {
  spent = omega (arith, v.spent);
  within = ground (arith, fits);
  listed = omega (arith, v.listed);
}

pack_blocks-Fits :
    (max_chars : ℕ) (bs : List Block) (p : Packing)
    → Fits max_chars p
    → Fits max_chars (pack_blocks max_chars bs p)
unfolding pack_blocks
pack_blocks-Fits max_chars [] p v = v
pack_blocks-Fits max_chars (b ∷ bs) p v =
    elim (Bool-cases (ltb max_chars (p.used + len (block_text b)))) [
      | inl over ↦ rw over v
      | inr fits ↦ rw fits (
          pack_blocks-Fits max_chars bs (put (block_text b) (block b.name) p)
            (put-Fits max_chars (block_text b) (block b.name) p fits v))
    ]

pack_nodes-Fits :
    (max_chars : ℕ) (include_kinds : List String) (ns : List MessageNode) (p : Packing)
    → Fits max_chars p
    → Fits max_chars (pack_nodes max_chars include_kinds ns p)
unfolding pack_nodes
pack_nodes-Fits max_chars kinds [] p v = v
pack_nodes-Fits max_chars kinds (n ∷ ns) p v =
    elim (Bool-cases (not (contains kinds n.kind) || ltb max_chars (p.used + len (node_text n)))) [
      | inl skip ↦ rw skip (pack_nodes-Fits max_chars kinds ns p v)
      | inr take_it ↦ rw take_it (
          pack_nodes-Fits max_chars kinds ns (put (node_text n) (message n.id n.source_ids) p) (
            put-Fits max_chars (node_text n) (message n.id n.source_ids) p (ground (arith, take_it))
              v))
    ]

abbrev Bounded : ℕ → Packed → Type 0
Bounded max_chars r =
    (r.used_chars ≤ max_chars) × (len r.text ≡ r.used_chars + 2 * (length r.selected - 1))

Fits-Bounded :
    (max_chars budget : ℕ) (p : Packing)
    → Fits max_chars p
    → Bounded max_chars (record {
      text = join "\n\n" p.parts;
      used_chars = p.used;
      budget = budget;
      selected = p.selected;
    })
Fits-Bounded max_chars budget p v =
    (v.within, omega (arith, len-join "\n\n" p.parts refl, v.spent, v.listed))

-- Where `pack` returns: `used_chars` is within the budget, and the text is longer than that by two
-- characters for each part but one, those of the blank lines between them, which the budget does not
-- count.
pub pack-used_chars :
    (s : ContextManager) (session_id : String) (max_chars : ℕ) (agent_id : String)
    (include_kinds : List String) (r : Packed)
    → pack s session_id max_chars agent_id include_kinds ≡ ok r
    → (r.used_chars ≤ max_chars) × (len r.text ≡ r.used_chars + 2 * (length r.selected - 1))
unfolding pack
pack-used_chars s session_id max_chars agent_id include_kinds r done =
    let start : Packing = record { parts = []; used = 0; selected = [] } in
    let nodes = reverse (nodes_of (lineage s session_id "")) in
    let blocks =
      pack_blocks-Fits max_chars (blocks_of s agent_id) start
        (record { spent = refl; within = omega arith; listed = refl }) in
    elim (Bool-cases (ltb max_chars 1)) [
      | inl small ↦ absurd (ok-ne-err r value_error (sym (rw small at done)))
      | inr fine ↦ subst (Bounded max_chars) (ok_injective _ r (rw fine at done)) (
          Fits-Bounded max_chars max_chars _
            (pack_nodes-Fits max_chars include_kinds nodes _ blocks))
    ]
