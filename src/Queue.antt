-- ===== src/Queue.antt =====
-- class DurableQueue of noesis_harness/queue.py. A method takes the table, the clock and what uuid4
-- would draw. A method is one step for the calls through one object, whose lock it holds; `lease` of
-- another object on the same file may read the same rows before they are marked. `body` is the text that json.dumps makes of the payload, and `sha256` the hex digest.
pub mod Attempts
pub mod Handouts
use noesis_harness_agent_mem.Prelude.{
  ℕ, suc, ◌+◌, String, Bool, true, false, Option, none, some, List, [], ◌∷◌, ◌++◌, ◌&&◌, ◌||◌, ◌==◌,
  ltb, leb, if◌then◌else◌, Result, ok, err, is_some, take,
}
use noesis_harness_agent_mem.Table.{select, fetchone, count, update, order_by}

pub data Status : Type 0 where
  pending leased done dead : Status

pub record Task : Type 0 where
  pub id : String
  pub fingerprint : String
  pub payload : String
  pub status : Status
  pub attempts : ℕ
  pub created_at : ℕ
  pub updated_at : ℕ

pub record DurableQueue : Type 0 where
  pub max_attempts : ℕ
  pub tasks : List Task

pub data Error : Type 0 where
  integrity_error : Error

abbrev pub is_pending : Status → Bool
is_pending pending = true
is_pending leased = false
is_pending done = false
is_pending dead = false

abbrev pub is_leased : Status → Bool
is_leased pending = false
is_leased leased = true
is_leased done = false
is_leased dead = false

abbrev pub has_id : String → Task → Bool
has_id k r = r.id == k

-- WHERE fingerprint=? AND status IN ('pending','leased')
abbrev pub is_open : String → Task → Bool
is_open fp r = (r.fingerprint == fp) && (is_pending r.status || is_leased r.status)

abbrev pub insert_new :
    DurableQueue → String → String → String → ℕ → Result Error String × DurableQueue
insert_new s tid fp body now =
    if is_some (fetchone (has_id tid) s.tasks) then (err integrity_error, s) else (
      ok tid,
      record s {
        tasks =
            s.tasks
            ++ record {
              id = tid;
              fingerprint = fp;
              payload = body;
              status = pending;
              attempts = 0;
              created_at = now;
              updated_at = now;
            }
              ∷ [];
      },
    )

-- what `enqueue` does with the open row of the same content
unfoldable pub enqueue_row :
    DurableQueue → String → String → String → ℕ → Option Task → Result Error String × DurableQueue
enqueue_row s tid fp body now (some row) = (ok row.id, s)
enqueue_row s tid fp body now none = insert_new s tid fp body now

-- `task_id or uuid4().hex`: an absent task_id is the empty text
unfoldable pub enqueue :
    (String → String)
    → DurableQueue
    → String
    → String
    → String
    → ℕ
    → Result Error String × DurableQueue
unfolding enqueue_row
enqueue sha256 s body task_id fresh now =
    enqueue_row s (if task_id == "" then fresh else task_id) (sha256 body) body now
      (fetchone (is_open (sha256 body)) s.tasks)

-- the row as it was read, and the worker
pub record Item : Type 0 where
  pub task : Task
  pub worker : String

abbrev pub mark_leased : ℕ → Task → Task
mark_leased now r = record r { status = leased; attempts = suc r.attempts; updated_at = now }

-- the loop over the fetched rows
unfoldable pub lease_rows : ℕ → List Task → List Task → List Task
lease_rows now [] tasks = tasks
lease_rows now (r ∷ rs) tasks = lease_rows now rs (update (has_id r.id) (mark_leased now) tasks)

unfoldable pub items : String → List Task → List Item
items worker [] = []
items worker (r ∷ rs) = record { task = r; worker = worker } ∷ items worker rs

-- SELECT * FROM tasks WHERE status='pending' ORDER BY created_at ASC LIMIT ?
unfoldable pub oldest : DurableQueue → ℕ → List Task
oldest s limit =
    take limit
      (order_by (λ a b. leb a.created_at b.created_at) (select (λ r. is_pending r.status) s.tasks))

unfoldable pub lease : DurableQueue → String → ℕ → ℕ → List Item × DurableQueue
unfolding lease_rows items oldest
lease s worker limit now =
    (items worker (oldest s limit), record s { tasks = lease_rows now (oldest s limit) s.tasks })

unfoldable pub ack : DurableQueue → String → ℕ → DurableQueue
ack s task_id now = record s {
  tasks = update (has_id task_id) (λ r. record r { status = done; updated_at = now }) s.tasks;
}

-- "missing", or the status that was written
unfoldable pub fail_row : DurableQueue → String → ℕ → Option Task → Option Status × DurableQueue
fail_row s task_id now none = (none, s)
fail_row s task_id now (some row) =
    let nxt = if ltb row.attempts s.max_attempts then pending else dead in
    (
      some nxt,
      record s {
        tasks = update (has_id task_id) (λ r. record r { status = nxt; updated_at = now }) s.tasks;
      },
    )

unfoldable pub fail : DurableQueue → String → ℕ → Option Status × DurableQueue
unfolding fail_row
fail s task_id now = fail_row s task_id now (fetchone (has_id task_id) s.tasks)

unfoldable pub recover : DurableQueue → ℕ → ℕ × DurableQueue
recover s now = (
  count (λ r. is_leased r.status) s.tasks,
  record s {
    tasks =
        update (λ r. is_leased r.status) (λ r. record r { status = pending; updated_at = now })
          s.tasks;
  },
)
