-- ===== src/Nextgen/Broker.antt =====
-- classes AgentManifest and IsolationBroker of noesis_harness/nextgen.py. A payload is its JSON
-- text. `audit`, where it is set, is the sequence of the calls of AuditChain.append. The identifier
-- that uuid4 draws is an argument.
pub mod Isolation
use noesis_harness_agent_mem.Table.{order_by, count, fetchone, select, update}
use noesis_harness_agent_mem.Dict.{insert, lookup}
use noesis_harness_agent_mem.Prelude.{
  ok, err, leb, eqb, if◌then◌else◌, is_some, take, contains, Result, ℕ, String, Bool, true, false,
  ◌&&◌, ◌||◌, not, Option, none, some, List, [], ◌∷◌, ◌++◌, ◌==◌,
}

pub record AgentManifest : Type 0 where
  pub agent_id : String
  pub role : String
  pub tenant_id : String
  pub parent_id : String
  pub private_scope : String
  pub readable_scopes : List String
  pub writable_scopes : List String
  pub max_children : ℕ
  pub context_budget : ℕ
  pub capability_digest : String

unfoldable pub can_read : AgentManifest → String → Bool
can_read a scope = (scope == a.private_scope) || contains a.readable_scopes scope

unfoldable pub can_write : AgentManifest → String → Bool
can_write a scope = (scope == a.private_scope) || contains a.writable_scopes scope

pub record Message : Type 0 where
  pub id : String
  pub sender : String
  pub recipient : String
  pub task_id : String
  pub payload : String
  pub created_at : ℕ

pub data Status : Type 0 where
  pending approved rejected : Status

pub record Proposal : Type 0 where
  pub id : String
  pub sender : String
  pub recipient : String
  pub scope : String
  pub payload : String
  pub status : Status
  pub created_at : ℕ

pub data Event : Type 0 where
  message_sent memory_proposed : String → String → String → String → Event
  memory_proposal_decided : String → String → Status → Event

pub record IsolationBroker : Type 0 where
  pub audit : Option (List Event)
  pub agents : List (String × AgentManifest)
  pub messages : List Message
  pub proposals : List Proposal

pub data Error : Type 0 where
  value_error unknown_agent cross_tenant scope_denied integrity_error : Error

abbrev pub log : Option (List Event) → Event → Option (List Event)
log none e = none
log (some es) e = some (es ++ e ∷ [])

-- INSERT OR REPLACE
unfoldable pub register :
    IsolationBroker → AgentManifest → Result Error (Unit {0}) × IsolationBroker
register s m =
    if (m.agent_id == "") || (m.private_scope == "")
    then (err value_error, s)
    else (ok tt, record s { agents = insert m.agent_id m s.agents })

-- _get; none is the CapabilityDenied of an unknown agent
unfoldable pub agent : IsolationBroker → String → Option AgentManifest
agent s k = lookup k s.agents

abbrev pub deliver : IsolationBroker → Message → Result Error String × IsolationBroker
deliver s m =
    if is_some (fetchone (λ (r : Message). r.id == m.id) s.messages)
    then (err integrity_error, s)
    else (
      ok m.id,
      record s {
        messages = s.messages ++ m ∷ [];
        audit = log s.audit (message_sent m.sender m.id m.recipient m.task_id);
      },
    )

abbrev pub send_between :
    IsolationBroker
    → Message
    → Option AgentManifest
    → Option AgentManifest
    → Result Error String × IsolationBroker
send_between s m none target = (err unknown_agent, s)
send_between s m (some source) none = (err unknown_agent, s)
send_between s m (some source) (some target) =
    if source.tenant_id == target.tenant_id then deliver s m else (err cross_tenant, s)

-- `m` with the fresh identifier and the clock
unfoldable pub send : IsolationBroker → Message → Result Error String × IsolationBroker
send s m = send_between s m (agent s m.sender) (agent s m.recipient)

unfoldable pub receive : IsolationBroker → String → ℕ → Result Error (List Message)
receive s recipient limit =
    if is_some (agent s recipient)
    then ok (
        take limit (
          order_by (λ (a b : Message). leb a.created_at b.created_at)
            (select (λ (r : Message). r.recipient == recipient) s.messages)))
    else err unknown_agent

abbrev pub is_denied : AgentManifest → AgentManifest → String → Bool
is_denied source target scope =
    not (source.tenant_id == target.tenant_id)
    || not (can_write target scope)
    || ((scope == target.private_scope) && not (source.agent_id == target.agent_id))

abbrev pub store_proposal : IsolationBroker → Proposal → Result Error String × IsolationBroker
store_proposal s p =
    if is_some (fetchone (λ (r : Proposal). r.id == p.id) s.proposals)
    then (err integrity_error, s)
    else (
      ok p.id,
      record s {
        proposals = s.proposals ++ p ∷ [];
        audit = log s.audit (memory_proposed p.sender p.id p.recipient p.scope);
      },
    )

abbrev pub propose_between :
    IsolationBroker
    → Proposal
    → Option AgentManifest
    → Option AgentManifest
    → Result Error String × IsolationBroker
propose_between s p none target = (err unknown_agent, s)
propose_between s p (some source) none = (err unknown_agent, s)
propose_between s p (some source) (some target) =
    if is_denied source target p.scope then (err scope_denied, s) else store_proposal s p

-- `p` with the fresh identifier and the clock; its status is set here
unfoldable pub propose_memory : IsolationBroker → Proposal → Result Error String × IsolationBroker
propose_memory s p =
    propose_between s (record p { status = pending }) (agent s p.sender) (agent s p.recipient)

abbrev pub same_status : Status → Status → Bool
same_status pending pending = true
same_status approved approved = true
same_status rejected rejected = true
same_status a b = false

unfoldable pub list_proposals : IsolationBroker → String → Status → Result Error (List Proposal)
list_proposals s recipient status =
    if is_some (agent s recipient)
    then ok (
        order_by (λ (a b : Proposal). leb a.created_at b.created_at)
          (select (λ (r : Proposal). (r.recipient == recipient) && same_status r.status status)
            s.proposals))
    else err unknown_agent

abbrev pub is_open : String → String → Proposal → Bool
is_open recipient k r = (r.id == k) && (r.recipient == recipient) && same_status r.status pending

unfoldable pub decide_proposal :
    IsolationBroker → String → String → Bool → Result Error Bool × IsolationBroker
decide_proposal s recipient k approve =
    let status = if approve then approved else rejected in
    let changed = eqb (count (is_open recipient k) s.proposals) 1 in
    let s' = record s {
      proposals = update (is_open recipient k) (λ r. record r { status = status }) s.proposals;
      audit = if changed then log s.audit (memory_proposal_decided recipient k status) else s.audit;
    } in
    if is_some (agent s recipient) then (ok changed, s') else (err unknown_agent, s)
