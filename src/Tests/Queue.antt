-- ===== src/Tests/Queue.antt =====
-- The queue of noesis_harness/queue.py on concrete tables.
use noesis_harness_agent_mem.Prelude.{ℕ, String, ◌≡◌, refl, List, [], ◌∷◌, map}
use noesis_harness_agent_mem.Table.{select, fetchone, count, update, order_by}
use noesis_harness_agent_mem.Queue.{
  DurableQueue, enqueue, lease, fail, recover, lease_rows, items, oldest, enqueue_row, fail_row,
  dead,
}
use noesis_harness_agent_mem.Queue.Attempts.{Call, enqueue_call, lease_call, fail_call, step}
use noesis_harness_agent_mem.Queue.Handouts.{handed_out, leased_by, count_items}

program : Unit {0}
unfolding enqueue lease fail recover select fetchone count update order_by lease_rows items oldest
    enqueue_row fail_row step
program = tt

abbrev digest : String → String
digest body = body

abbrev empty : DurableQueue
empty = record { max_attempts = 1; tasks = [] }

abbrev calls : List (ℕ × Call)
calls =
    (1, enqueue_call "{}" "a" "")
    ∷ (2, lease_call "worker-1" 1)
    ∷ (3, fail_call "a")
    ∷ (4, lease_call "worker-2" 1)
    ∷ []

-- one attempt is all that the task gets
dead_after_one :
    map
      (λ r. r.status)
      (fail (lease (enqueue digest empty "{}" "a" "" 1).1 "w" 1 2).1 "a" 3).1.tasks
    ≡ dead ∷ []
unfolding program
dead_after_one = refl

once : handed_out digest empty calls "a" ≡ 1
unfolding program handed_out leased_by count_items
once = refl
