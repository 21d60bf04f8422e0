-- ===== src/Nextgen/Broker/Isolation.antt =====
-- What stands in the tables of IsolationBroker of noesis_harness/nextgen.py: nothing crosses a
-- tenant, and nothing is proposed to another agent's private scope.
use noesis_harness_agent_mem.Table.{fetchone}
use noesis_harness_agent_mem.Table.Holding.{All-update, All-append}
use noesis_harness_agent_mem.Prelude.{
  is_some, Bool-cases, All, String, ◌≡◌, sym, ap, inl, inr, Bool, true, false, Option, none, some,
  List, [], ◌∷◌, arith, ◌==◌, eq_iff,
}
use noesis_harness_agent_mem.Nextgen.Broker.{
  AgentManifest, Message, Proposal, IsolationBroker, pending, send, send_between, propose_memory,
  propose_between, decide_proposal, agent, deliver, store_proposal, is_denied, lookup, can_write,
  is_open,
}

abbrev pub Agents : Type 0
Agents = List (String × AgentManifest)

-- both are registered, in one tenant
abbrev pub SameTenant : Agents → String → String → Type 0
SameTenant agents a b =
    (x : AgentManifest) × (y : AgentManifest) × (lookup a agents ≡ some x)
    × (lookup b agents ≡ some y)
    × (x.tenant_id ≡ y.tenant_id)

-- The proposal stays in one tenant, its recipient may write the scope, and a private scope is
-- proposed only by its owner.
abbrev pub Proper : Agents → Proposal → Type 0
Proper agents p =
    (x : AgentManifest) × (y : AgentManifest) × (lookup p.sender agents ≡ some x)
    × (lookup p.recipient agents ≡ some y)
    × (x.tenant_id ≡ y.tenant_id)
    × (can_write y p.scope ≡ true)
    × (p.scope ≡ y.private_scope → x.agent_id ≡ y.agent_id)

pub record IsIsolated (agents : Agents) (s : IsolationBroker) : Type 0 where
  pub registered : s.agents ≡ agents
  pub messages : All (λ (m : Message). SameTenant agents m.sender m.recipient) s.messages
  pub proposals : All (Proper agents) s.proposals

pub data Call : Type 0 where
  send_call : Message → Call
  propose_call : Proposal → Call
  decide_call : String → String → Bool → Call

unfoldable pub step : IsolationBroker → Call → IsolationBroker
step s (send_call m) = (send s m).1
step s (propose_call p) = (propose_memory s p).1
step s (decide_call recipient k approve) = (decide_proposal s recipient k approve).1

unfoldable pub run : IsolationBroker → List Call → IsolationBroker
run s [] = s
run s (c ∷ cs) = run (step s c) cs

module _ (agents : Agents) where
  deliver-IsIsolated :
      (s : IsolationBroker) (m : Message)
      → SameTenant agents m.sender m.recipient
      → IsIsolated agents s
      → IsIsolated agents (deliver s m).1
  deliver-IsIsolated s m fine v =
      elim (Bool-cases (is_some (fetchone (λ (r : Message). r.id == m.id) s.messages))) [
        | inl old ↦ rw old v
        | inr new ↦ rw new (record {
          registered = v.registered;
          messages = All-append _ s.messages (m ∷ []) v.messages (fine, tt);
          proposals = v.proposals;
        })
      ]

  send_between-IsIsolated :
      (s : IsolationBroker) (m : Message) (o o' : Option AgentManifest)
      → lookup m.sender agents ≡ o
      → lookup m.recipient agents ≡ o'
      → IsIsolated agents s
      → IsIsolated agents (send_between s m o o').1
  send_between-IsIsolated s m none o' source target v = v
  send_between-IsIsolated s m (some x) none source target v = v
  send_between-IsIsolated s m (some x) (some y) source target v =
      elim (Bool-cases (x.tenant_id == y.tenant_id)) [
        | inl same ↦ rw same (
            deliver-IsIsolated s m (x, y, source, target, (eq_iff x.tenant_id y.tenant_id).0 same)
              v)
        | inr apart ↦ rw apart v
      ]

  store_proposal-IsIsolated :
      (s : IsolationBroker) (p : Proposal)
      → Proper agents p
      → IsIsolated agents s
      → IsIsolated agents (store_proposal s p).1
  store_proposal-IsIsolated s p fine v =
      elim (Bool-cases (is_some (fetchone (λ (r : Proposal). r.id == p.id) s.proposals))) [
        | inl old ↦ rw old v
        | inr new ↦ rw new (record {
          registered = v.registered;
          messages = v.messages;
          proposals = All-append _ s.proposals (p ∷ []) v.proposals (fine, tt);
        })
      ]

  -- the test of `propose_memory`
  granted :
      (x y : AgentManifest) (scope : String)
      → is_denied x y scope ≡ false
      → (x.tenant_id ≡ y.tenant_id)
        × (can_write y scope ≡ true)
        × (scope ≡ y.private_scope → x.agent_id ≡ y.agent_id)
  granted x y scope fine = (
    (eq_iff x.tenant_id y.tenant_id).0 (ground (arith, fine)),
    ground (arith, fine),
    λ own.
        (eq_iff x.agent_id y.agent_id).0
          (ground (arith, fine, (eq_iff scope y.private_scope).1 own)),
  )

  propose_between-IsIsolated :
      (s : IsolationBroker) (p : Proposal) (o o' : Option AgentManifest)
      → lookup p.sender agents ≡ o
      → lookup p.recipient agents ≡ o'
      → IsIsolated agents s
      → IsIsolated agents (propose_between s p o o').1
  propose_between-IsIsolated s p none o' source target v = v
  propose_between-IsIsolated s p (some x) none source target v = v
  propose_between-IsIsolated s p (some x) (some y) source target v =
      elim (Bool-cases (is_denied x y p.scope)) [
        | inl denied ↦ rw denied v
        | inr fine ↦
            let (same, writes, owned) = granted x y p.scope fine in
            rw fine (store_proposal-IsIsolated s p (x, y, source, target, same, writes, owned) v)
      ]

  decide_proposal-IsIsolated :
      (s : IsolationBroker) (recipient k : String) (approve : Bool)
      → IsIsolated agents s
      → IsIsolated agents (decide_proposal s recipient k approve).1
  unfolding decide_proposal
  decide_proposal-IsIsolated s recipient k approve v =
      elim (Bool-cases (is_some (agent s recipient))) [
        | inr unknown ↦ rw unknown v
        | inl known ↦ rw known (record {
          registered = v.registered;
          messages = v.messages;
          proposals =
              All-update (Proper agents) (is_open recipient k) _ s.proposals (λ r e h. h)
                v.proposals;
        })
      ]

  step-IsIsolated :
      (s : IsolationBroker) (c : Call) → IsIsolated agents s → IsIsolated agents (step s c)
  unfolding step send propose_memory agent
  step-IsIsolated s (send_call m) v =
      send_between-IsIsolated s m (lookup m.sender s.agents) (lookup m.recipient s.agents)
        (ap (lookup m.sender) (sym v.registered)) (ap (lookup m.recipient) (sym v.registered)) v
  step-IsIsolated s (propose_call p) v =
      propose_between-IsIsolated s (record p { status = pending }) (lookup p.sender s.agents)
        (lookup p.recipient s.agents) (ap (lookup p.sender) (sym v.registered))
        (ap (lookup p.recipient) (sym v.registered)) v
  step-IsIsolated s (decide_call recipient k approve) v =
      decide_proposal-IsIsolated s recipient k approve v

  -- While the registrations stay as they are, whatever is sent, proposed and decided, from tables
  -- where the following holds (empty ones, say): every message that is stored goes from a registered
  -- agent to one of the same tenant, and so does every proposal, which is for a scope that its
  -- recipient may write and, if that is the recipient's private scope, comes from the recipient
  -- itself.
  pub run-IsIsolated :
      (s : IsolationBroker) (calls : List Call)
      → IsIsolated agents s
      → IsIsolated agents (run s calls)
  unfolding run
  run-IsIsolated s [] v = v
  run-IsIsolated s (c ∷ cs) v = run-IsIsolated (step s c) cs (step-IsIsolated s c v)
