-- ===== src/Tests/Broker.antt =====
-- The broker of noesis_harness/nextgen.py with agents of two tenants.
use noesis_harness_agent_mem.Dict.{lookup, insert}
use noesis_harness_agent_mem.Prelude.{ok, err, String, ◌≡◌, refl, true, some, List, [], ◌∷◌}
use noesis_harness_agent_mem.Table.{select, fetchone, count, update, order_by}
use noesis_harness_agent_mem.Nextgen.Broker.{
  AgentManifest, Message, Proposal, IsolationBroker, cross_tenant, scope_denied, pending, register,
  agent, send, receive, propose_memory, list_proposals, decide_proposal, can_write,
}
use noesis_harness_agent_mem.Nextgen.Broker.Isolation.{
  Call, send_call, propose_call, decide_call, run, step, IsIsolated, run-IsIsolated,
}

program : Unit {0}
unfolding register agent send receive propose_memory list_proposals decide_proposal can_write run
    step lookup insert select fetchone count update order_by
program = tt

abbrev manifest : String → String → AgentManifest
manifest k tenant = record {
  agent_id = k;
  role = "worker";
  tenant_id = tenant;
  parent_id = "";
  private_scope = k;
  readable_scopes = [];
  writable_scopes = "shared" ∷ [];
  max_children = 0;
  context_budget = 8000;
  capability_digest = "";
}

abbrev start : IsolationBroker
start = record {
  audit = some [];
  agents = ("a", manifest "a" "x") ∷ ("b", manifest "b" "x") ∷ ("c", manifest "c" "y") ∷ [];
  messages = [];
  proposals = [];
}

abbrev mail : String → String → String → Message
mail id sender recipient = record {
  id = id;
  sender = sender;
  recipient = recipient;
  task_id = "t";
  payload = "{}";
  created_at = 1;
}

abbrev note : String → String → String → String → Proposal
note id sender recipient scope = record {
  id = id;
  sender = sender;
  recipient = recipient;
  scope = scope;
  payload = "{}";
  status = pending;
  created_at = 1;
}

crosses : (send start (mail "m" "a" "c")).0 ≡ err cross_tenant
unfolding program
crosses = refl

intrudes : (propose_memory start (note "p" "a" "b" "b")).0 ≡ err scope_denied
unfolding program
intrudes = refl

abbrev calls : List Call
calls =
    send_call (mail "m" "a" "b")
    ∷ send_call (mail "n" "a" "c")
    ∷ propose_call (note "p" "a" "b" "shared")
    ∷ propose_call (note "q" "b" "b" "b")
    ∷ decide_call "b" "p" true
    ∷ []

delivered : receive (run start calls) "b" 10 ≡ ok (mail "m" "a" "b" ∷ [])
unfolding program
delivered = refl

run-IsIsolated_example : IsIsolated start.agents (run start calls)
run-IsIsolated_example =
    run-IsIsolated start.agents start calls
      (record { registered = refl; messages = tt; proposals = tt })
