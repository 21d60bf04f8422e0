-- ===== src/Tests.antt =====
-- Runs of the models on concrete inputs, and the theorems at inputs that meet their hypotheses.
mod Leases
mod Actions
mod Signals
mod Queue
mod Hitl
mod Budget
mod BoundedCache
mod HashChain
mod WorkCoordinator
mod AgentLoop
mod RingBuffer
mod LoopGuard
mod BestState
mod FiberStore
mod EventStore
mod Gatekeeper
mod Recovery
mod Context
mod Audit
mod Broker
mod Scope
mod Graph
mod ContextPack
mod TurnCheckpoint
mod SessionStream
