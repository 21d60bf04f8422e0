-- ===== src/Queue/Handouts.antt =====
-- How often `lease` of noesis_harness/queue.py hands a task out, along a run of calls.
use noesis_harness_agent_mem.Prelude.{if◌then◌else◌, ℕ, ◌+◌, ◌<◌, String, List, [], ◌∷◌}
use noesis_harness_agent_mem.Table.{count}
use noesis_harness_agent_mem.Queue.{lease, has_id, Task, Item, DurableQueue}
use noesis_harness_agent_mem.Queue.Attempts.{
  Call, enqueue_call, lease_call, ack_call, fail_call, step,
}

-- the items of one task
unfoldable pub count_items : String → List Item → ℕ
count_items k [] = 0
count_items k (i ∷ is) = (if has_id k i.task then 1 else 0) + count_items k is

-- what a call returns to a worker
unfoldable pub leased_by : DurableQueue → ℕ → Call → List Item
leased_by s now (enqueue_call body task_id fresh) = []
leased_by s now (lease_call worker limit) = (lease s worker limit now).0
leased_by s now (ack_call k) = []
leased_by s now (fail_call k) = []

-- the number of times that the calls hand out the task `k`
unfoldable pub handed_out : (String → String) → DurableQueue → List (ℕ × Call) → String → ℕ
handed_out sha256 s [] k = 0
handed_out sha256 s ((now, c) ∷ cs) k =
    count_items k (leased_by s now c) + handed_out sha256 (step sha256 s now c) cs k

-- the attempts that the table counts for the task `k`
unfoldable pub attempts_of : String → List Task → ℕ
attempts_of k [] = 0
attempts_of k (r ∷ rs) = (if has_id k r then r.attempts else 0) + attempts_of k rs

-- the row is in the table
abbrev Present : List Task → Task → Type 0
Present tasks r = 0 < count (has_id r.id) tasks
