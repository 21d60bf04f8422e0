-- ===== src/Lib.antt =====
-- Verification library of the NOESIS harness (noesis_harness/*.py): the durable stores that its agents
-- share, and the in-memory components beside them.
--
-- The harness coordinates agents that share no memory: they meet in SQLite tables, and each component is a
-- class over a few tables of its own. The models keep that cut. A class is a record of its tables and of
-- the settings that its constructor stores; a method is a function from the state and the arguments to the
-- result and the new state. A method that holds the lock of its object throughout is one step for the
-- calls that go through that object, and the interleavings of agents that share the object are the
-- sequences of steps. The lock is one of the object, and sqlite3 opens no transaction before the first
-- write: two objects or processes on one file may come between what a method reads and what it writes.
-- That is modelled where a method is split in steps (Leases.acquire: the SELECTs and the writes;
-- Budget.spend: the check and the write; AuditChain.append: the event and the write of it), and only
-- there. The other classes of noesis_harness/orchestration.py, best_state.py, fibers.py, gatekeeper.py,
-- nextgen.py, event_store.py and turn_checkpoint.py read and write in several transactions: their calls
-- are taken one after the other, and what two processes may do inside one another's calls is not modelled.
--
--   Prelude         tests on numbers and texts, lists, results, and the lemmas on them
--   Table           a SQL table as a list of rows in insertion order: SELECT, fetchone, COUNT, UPDATE,
--                   DELETE, ORDER BY. `fetchone` is the first matching row
--   Dict            a Python dict with text keys
--   Coordination    noesis_harness/coordination.py: Leases (exclusive, expiring claims of tasks), Actions
--                   (work items with requirements) and Signals (messages)
--   WorkCoordinator noesis_harness/orchestration.py: tasks with requirements and scopes
--   AgentLoop       noesis_harness/agent_loop.py: one turn is the chain of the calls of its collaborators;
--                   a collaborator is a parameter that may reply or raise anything
--   BestState       noesis_harness/best_state.py, class BestStateStore
--   FiberStore      noesis_harness/fibers.py: the checkpoints of long-running tasks
--   Recovery        noesis_harness/recovery.py: RecoveryCoordinator, over the models of BestStateStore,
--                   FiberStore, WorkCoordinator and Actions
--   EventStore      noesis_harness/event_store.py, over a file of lines that a crash may cut
--   Gatekeeper      noesis_harness/gatekeeper.py: requests that wait for an approval, replayed from events
--   TurnCheckpoint  noesis_harness/turn_checkpoint.py: one checkpoint for each turn, chained by digests
--   Nextgen         noesis_harness/nextgen.py: Context (ContextManager: the tree of messages, its forks and
--                   the packing of a prompt), Audit (AuditChain), Ledger (DurableCommandLedger) and Broker
--                   (IsolationBroker)
--   ContextPack     noesis_harness/context_pack.py: recalled facts in a budget of tokens
--   Scope           noesis_harness/scope.py, class ScopedMemory
--   Graph           noesis_harness/graph.py, class MemoryGraph
--   SessionStream   noesis_harness/session_stream.py: the buffer that a client reads when it connects again
--   Queue           noesis_harness/queue.py, class DurableQueue
--   Hitl            noesis_harness/hitl.py, class HitlGate
--   Budget          noesis_harness/budget.py, class Budget
--   BoundedCache    noesis_harness/bounded_cache.py
--   Deque           a Python deque with a bound
--   RingBuffer      noesis_harness/ring_buffer.py
--   LoopGuard       noesis_harness/loop_guard.py
--   HashChain       noesis_harness/merkle_chain.py
--   Tests           runs on concrete inputs, and the theorems at inputs that meet their hypotheses
--
-- Conventions. A method has the name that it has in the class. What it reads off the clock (time.time())
-- is an argument, a natural number of ticks, and so is what uuid4 draws. Priorities, units and counters
-- are natural numbers; the source's are Python integers without a bound, so there is no overflow. A JSON
-- column is its text. Where a digest is taken of a value and compared with that of the value that
-- json.loads gives back (EventStore, TurnCheckpoint, AuditChain), the parameter `reload` is what happens
-- to the canonical text between the two, and that the text is kept is a hypothesis where it is needed.
-- AuditChain.append, where another component calls it, is taken to return, but for FiberStore, where it
-- may raise. sha256 is a parameter without assumptions. The `INSERT` of a primary key that stands in the
-- table is the error that sqlite3 raises, and leaves the table as it is. `X or default` on a text takes
-- the default where the text is empty. A nullable column is an Option. The loops of the source run over
-- lists or over the turns that are left (AgentLoop.run): they are structural recursions, without fuel.
-- Only the loop of `lineage`, which follows parents, has fuel: one round more than the session has
-- messages, which is enough since no message is visited twice.
--
-- Not modelled: paths and host names (CapabilityManifest); what SQLite does on a crash or on a locked
-- database; the encodings of json beyond `reload`, `dumps` and `loads`; reports (counts, status pages);
-- the processes, sandboxes, servers, user interfaces and benchmarks of the harness.
pub mod Prelude
pub mod Nextgen
pub mod SessionStream
pub mod Graph
pub mod Scope
pub mod ContextPack
pub mod TurnCheckpoint
pub mod Table
pub mod Coordination
pub mod Dict
pub mod BoundedCache
pub mod Queue
pub mod Hitl
pub mod Budget
pub mod HashChain
pub mod WorkCoordinator
pub mod AgentLoop
pub mod Deque
pub mod RingBuffer
pub mod LoopGuard
pub mod BestState
pub mod FiberStore
pub mod Recovery
pub mod EventStore
pub mod Gatekeeper
mod Tests
