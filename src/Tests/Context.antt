-- ===== src/Tests/Context.antt =====
-- The message tree of noesis_harness/nextgen.py on concrete sessions.
use mathlib.Core.List.{reverse}
use noesis_harness_agent_mem.Prelude.{
  ok, length, len, ℕ, ◌+◌, ◌-◌, ◌*◌, ◌≤◌, String, ◌≡◌, refl, Bool, true, some, List, [], ◌∷◌,
}
use noesis_harness_agent_mem.Table.{select, fetchone, count, update, delete, order_by, insert_by}
use noesis_harness_agent_mem.Nextgen.Context.{
  ContextManager, MessageNode, create_session, add, fork, fork_marker, lineage, walk, compact,
  set_block, session_rows,
}
use noesis_harness_agent_mem.Nextgen.Context.Lineage.{Rising, lineage-Rising}
use noesis_harness_agent_mem.Nextgen.Context.Forks.{fork-lineage}
use noesis_harness_agent_mem.Nextgen.Context.Packing.{
  pack, pack_blocks, pack_nodes, Packed, message, pack-used_chars,
}

program : Unit {0}
unfolding create_session add fork lineage walk compact set_block pack pack_blocks pack_nodes select
    fetchone count update delete order_by insert_by
program = tt

abbrev empty : ContextManager
empty = record { sessions = []; messages = []; context_blocks = [] }

abbrev node : String → String → String → ℕ → MessageNode
node id parent_id content now = record {
  id = id;
  session_id = "s";
  parent_id = parent_id;
  role = "user";
  content = content;
  created_at = now;
  branch = "main";
  kind = "message";
  source_ids = [];
}

abbrev one : ContextManager
one = (add empty (node "a" "" "hi" 1) "x").1

abbrev two : ContextManager
two = (add one (node "b" "a" "ho" 2) "x").1

-- a message that is its own ancestor
abbrev cycle : ContextManager
cycle = (add two (node "c" "c" "hm" 3) "x").1

path : lineage two "s" "b" ≡ some (node "a" "" "hi" 1 ∷ node "b" "a" "ho" 2 ∷ [])
unfolding program
path = refl

cut : lineage cycle "s" "c" ≡ some (node "c" "c" "hm" 3 ∷ [])
unfolding program
cut = refl

lineage-Rising_example :
    (out : List MessageNode) × (lineage cycle "s" "c" ≡ some (reverse out))
    × Rising (session_rows cycle "s") [] "c" out
lineage-Rising_example = lineage-Rising cycle "s" "c" refl

abbrev any : String → Bool
any t = true

forks : (fork any two "b" "try" "f" "m" "x" 4).0 ≡ ok "f"
unfolding program
forks = refl

fork-lineage_example :
    lineage (fork any two "b" "try" "f" "m" "x" 4).1 "f" "m"
    ≡ some (fork_marker "m" "f" "b" "try" 4 ∷ [])
unfolding program
fork-lineage_example =
    fork-lineage any two "b" "try" "f" "m" "x" 4 refl refl (refl, (refl, tt)) forks

-- two messages of eight characters in a budget of sixteen: the text has eighteen
abbrev full : Packed
full = record {
  text = "user: hi\n\nuser: ho";
  used_chars = 16;
  budget = 16;
  selected = message "a" [] ∷ message "b" [] ∷ [];
}

packs : pack two "s" 16 "" ("message" ∷ []) ≡ ok full
unfolding program
packs = refl

longer : len full.text ≡ 18
longer = refl

pack-used_chars_example :
    (full.used_chars ≤ 16) × (len full.text ≡ full.used_chars + 2 * (length full.selected - 1))
pack-used_chars_example = pack-used_chars two "s" 16 "" ("message" ∷ []) full packs
