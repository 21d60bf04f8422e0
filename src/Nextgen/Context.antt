-- ===== src/Nextgen/Context.antt =====
-- class ContextManager of noesis_harness/nextgen.py. A method takes the three tables, the clock and
-- the identifiers that uuid4 would draw. `is_branch` tells whether re.fullmatch takes a branch
-- name. `len` of a text is its number of characters.
pub mod Lineage
pub mod Forks
pub mod Packing
use noesis_harness_agent_mem.Table.{fetchone, order_by, delete, select}
use mathlib.Core.List.{reverse}
use noesis_harness_agent_mem.Prelude.{
  ok, err, ltb, leb, eqb, if◌then◌else◌, is_some, length, contains, len, Result, ℕ, zero, suc,
  String, Bool, ◌&&◌, ◌||◌, not, Option, none, some, List, [], ◌∷◌, ◌++◌, ◌==◌,
}

pub record Session : Type 0 where
  pub id : String
  pub agent_id : String
  pub created_at : ℕ

pub record MessageNode : Type 0 where
  pub id : String
  pub session_id : String
  pub parent_id : String
  pub role : String
  pub content : String
  pub created_at : ℕ
  pub branch : String
  pub kind : String
  pub source_ids : List String

pub record Block : Type 0 where
  pub agent_id : String
  pub name : String
  pub content : String
  pub budget : ℕ
  pub updated_at : ℕ

pub record ContextManager : Type 0 where
  pub sessions : List Session
  pub messages : List MessageNode
  pub context_blocks : List Block

pub data Error : Type 0 where
  value_error integrity_error : Error

-- INSERT OR IGNORE
unfoldable pub create_session :
    ContextManager → String → String → String → ℕ → String × ContextManager
create_session s agent_id session_id fresh now =
    let sid = if session_id == "" then fresh else session_id in
    let row : Session = record { id = sid; agent_id = agent_id; created_at = now } in
    (
      sid,
      if is_some (fetchone (λ (r : Session). r.id == sid) s.sessions)
          then s
          else record s { sessions = s.sessions ++ row ∷ [] },
    )

abbrev pub has_id : String → MessageNode → Bool
has_id k r = r.id == k

abbrev pub insert_node : ContextManager → MessageNode → Result Error MessageNode × ContextManager
insert_node s node =
    if is_some (fetchone (has_id node.id) s.messages)
    then (err integrity_error, s)
    else (ok node, record s { messages = s.messages ++ node ∷ [] })

-- `node` without its id and its clock; `fresh` is drawn for a session without a name
unfoldable pub add :
    ContextManager → MessageNode → String → Result Error MessageNode × ContextManager
add s node fresh =
    if (node.content == "") || (node.role == "")
    then (err value_error, s)
    else insert_node (create_session s "unknown" node.session_id fresh node.created_at).1 node

abbrev pub fork_marker : String → String → String → String → ℕ → MessageNode
fork_marker id session_id parent_id branch now = record {
  id = id;
  session_id = session_id;
  parent_id = parent_id;
  role = "system";
  content = "fork";
  created_at = now;
  branch = branch;
  kind = "fork";
  source_ids = [];
}

abbrev pub forked :
    String → Result Error MessageNode × ContextManager → Result Error String × ContextManager
forked new_id (ok node, s) = (ok new_id, s)
forked new_id (err e, s) = (err e, s)

-- `fresh` is the new session, `node_id` its marker
unfoldable pub fork :
    (String → Bool)
    → ContextManager
    → String
    → String
    → String
    → String
    → String
    → ℕ
    → Result Error String × ContextManager
fork is_branch s parent_id branch fresh node_id unused now =
    let (new_id, s') = create_session s "fork" fresh unused now in
    let reply = forked new_id (add s' (fork_marker node_id new_id parent_id branch now) unused) in
    if (branch == "") || not (is_branch branch) then (err value_error, s) else reply

abbrev pub in_session : String → MessageNode → Bool
in_session k r = r.session_id == k

abbrev pub by_time : MessageNode → MessageNode → Bool
by_time a b = leb a.created_at b.created_at

abbrev pub session_rows : ContextManager → String → List MessageNode
session_rows s session_id = order_by by_time (select (in_session session_id) s.messages)

-- the tests of the `while` of `lineage`
abbrev pub next_node : List MessageNode → List String → String → Option MessageNode
next_node nodes seen cur =
    if (cur == "") || contains seen cur then none else fetchone (has_id cur) nodes

abbrev pub parent_of : Option MessageNode → String
parent_of none = ""
parent_of (some node) = node.parent_id

abbrev pub onto : Option MessageNode → Option (List MessageNode) → Option (List MessageNode)
onto none rest = some []
onto (some node) none = none
onto (some node) (some out) = some (node ∷ out)

-- the loop, from the leaf upwards, in at most so many rounds
unfoldable pub walk : ℕ → List MessageNode → List String → String → Option (List MessageNode)
walk zero nodes seen cur = none
walk (suc n) nodes seen cur =
    let node = next_node nodes seen cur in
    let rest = walk n nodes (cur ∷ seen) (parent_of node) in onto node rest

abbrev pub from_root : Option (List MessageNode) → Option (List MessageNode)
from_root none = none
from_root (some out) = some (reverse out)

-- none where the rounds do not suffice
unfoldable pub lineage : ContextManager → String → String → Option (List MessageNode)
lineage s session_id leaf_id =
    let nodes = session_rows s session_id in
    let path = from_root (walk (suc (length nodes)) nodes [] leaf_id) in
    if leaf_id == "" then some (order_by by_time nodes) else path

unfoldable pub compact :
    ContextManager → MessageNode → List String → String → Result Error MessageNode × ContextManager
compact s node covered_ids fresh =
    let reply =
      add s (record node { role = "system"; kind = "compaction"; source_ids = covered_ids })
        fresh in
    if (node.content == "") || eqb (length covered_ids) 0 then (err value_error, s) else reply

-- INSERT OR REPLACE
unfoldable pub set_block : ContextManager → Block → Result Error (Unit {0}) × ContextManager
set_block s b =
    if (b.name == "") || ltb b.budget 1 || ltb b.budget (len b.content)
    then (err value_error, s)
    else (
      ok tt,
      record s {
        context_blocks =
            delete (λ (r : Block). (r.agent_id == b.agent_id) && (r.name == b.name))
              s.context_blocks
            ++ b ∷ [];
      },
    )
