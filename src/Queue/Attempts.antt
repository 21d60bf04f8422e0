-- ===== src/Queue/Attempts.antt =====
-- No task of DurableQueue of noesis_harness/queue.py is attempted more than `max_attempts` times,
-- as long as no crash recovery steps in.
use noesis_harness_agent_mem.Prelude.{
  ltb, leb, eqb, if◌then◌else◌, Option-cases, All, ℕ, ◌≤◌, ◌<◌, String, ◌≡◌, refl, ◌∙◌, inl, inr,
  true, false, ◌&&◌, Option, none, some, List, [], ◌∷◌, arith, ◌==◌, eq_iff, eq_refl,
}
use noesis_harness_agent_mem.Table.{fetchone, count, update, select, order_by}
use noesis_harness_agent_mem.Table.Counting.{
  count-update, count-select, count-imp-le, count-cons_self, count-tail-le,
}
use noesis_harness_agent_mem.Table.Holding.{
  All-append, All-imp, All-updated, All-selected, All-update, All-both,
}
use noesis_harness_agent_mem.Table.Sorting.{count-order_by, All-order_by}
use noesis_harness_agent_mem.Table.Keyed.{
  append-keyed, update-keyed, All-of_count-zero, count-take-le, All-take, member-pos, All-of_unique,
  All-of_fetched,
}
use noesis_harness_agent_mem.Queue.{
  Task, DurableQueue, pending, done, dead, is_pending, has_id, is_open, insert_new, enqueue,
  mark_leased, lease_rows, oldest, lease, ack, fail, enqueue_row, fail_row,
}

-- A task has at most `max_attempts` attempts, and fewer while it is pending; identifiers are unique.
abbrev pub WithinLimit : ℕ → Task → Type 0
WithinLimit n r = (r.attempts ≤ n) × (is_pending r.status ≡ true → r.attempts < n)

pub record IsSound (s : DurableQueue) : Type 0 where
  pub allows_one : 0 < s.max_attempts
  pub keyed : (k : String) → count (has_id k) s.tasks ≤ 1
  pub bounded : All (WithinLimit s.max_attempts) s.tasks

-- all rows with the identifier of `r` are pending
abbrev PendingAt : List Task → Task → Type 0
PendingAt tasks r = All (λ x. has_id r.id x ≡ true → is_pending x.status ≡ true) tasks

-- the UPDATE of one fetched row, on a row of the table
leased-WithinLimit :
    (n now : ℕ) (r x : Task)
    → WithinLimit n x
    → (has_id r.id x ≡ true → is_pending x.status ≡ true)
    → WithinLimit n (if has_id r.id x then mark_leased now x else x)
leased-WithinLimit n now r x w pend = ground (arith, w, pend)

leased-PendingAt :
    (now : ℕ) (r other : Task) (tasks : List Task)
    → has_id r.id other ≡ false
    → PendingAt tasks other
    → PendingAt (update (has_id r.id) (mark_leased now) tasks) other
leased-PendingAt now r other tasks apart h =
    All-updated (λ x. has_id other.id x ≡ true → is_pending x.status ≡ true) (has_id r.id)
      (mark_leased now) tasks
      (All-imp
        (λ x f e.
          ground (arith, f, e, apart, eq_iff x.id r.id, eq_iff x.id other.id, eq_iff other.id r.id))
        tasks h)

lease_rows-bounded :
    (n now : ℕ) (rs tasks : List Task)
    → All (PendingAt tasks) rs
    → ((k : String) → count (has_id k) rs ≤ 1)
    → All (WithinLimit n) tasks
    → All (WithinLimit n) (lease_rows now rs tasks)
unfolding lease_rows
lease_rows-bounded n now [] tasks at one h = h
lease_rows-bounded n now (r ∷ rs) tasks at one h =
    let apart : All (λ x. has_id r.id x ≡ false) rs =
      All-of_count-zero (has_id r.id) rs
        (omega (arith, one r.id, count-cons_self (has_id r.id) r rs (eq_refl r.id))) in
    lease_rows-bounded n now rs (update (has_id r.id) (mark_leased now) tasks)
      (All-imp (λ x k. leased-PendingAt now r x tasks k.1 k.0) rs (All-both _ _ rs at.1 apart))
      (λ k. omega (arith, one k, count-tail-le (has_id k) r rs))
      (All-updated (WithinLimit n) (has_id r.id) (mark_leased now) tasks
        (All-imp (λ x k. leased-WithinLimit n now r x k.0 k.1) tasks (All-both _ _ tasks h at.0)))

lease_rows-keyed :
    (now : ℕ) (k : String) (rs tasks : List Task)
    → count (has_id k) (lease_rows now rs tasks) ≡ count (has_id k) tasks
unfolding lease_rows
lease_rows-keyed now k [] tasks = refl
lease_rows-keyed now k (r ∷ rs) tasks =
    lease_rows-keyed now k rs (update (has_id r.id) (mark_leased now) tasks)
    ∙ count-update (has_id k) (has_id r.id) (mark_leased now) tasks (λ x _. refl)

oldest-keyed :
    (s : DurableQueue) (limit : ℕ) (k : String)
    → count (has_id k) s.tasks ≤ 1
    → count (has_id k) (oldest s limit) ≤ 1
unfolding oldest
oldest-keyed s limit k one = omega (
  arith,
  count-take-le (has_id k) limit
      (order_by (λ a b. leb a.created_at b.created_at) (select (λ r. is_pending r.status) s.tasks)),
  count-order_by (λ (a b : Task). leb a.created_at b.created_at) (has_id k)
      (select (λ r. is_pending r.status) s.tasks),
  count-select (has_id k) (λ r. is_pending r.status) s.tasks,
  count-imp-le (λ r. is_pending r.status && has_id k r) (has_id k) s.tasks (λ r h. ground arith),
)

oldest-pending :
    (s : DurableQueue) (limit : ℕ)
    → ((k : String) → count (has_id k) s.tasks ≤ 1)
    → All (PendingAt s.tasks) (oldest s limit)
unfolding oldest
oldest-pending s limit keyed = All-take (PendingAt s.tasks) limit _ (
    All-order_by _ (PendingAt s.tasks) _ (
      All-selected (PendingAt s.tasks) (λ r. is_pending r.status) s.tasks
        (All-imp
          (λ r h e.
            All-of_unique (λ x. x.id) (λ x. is_pending x.status) r.id s.tasks (keyed r.id) (h e))
          s.tasks (member-pos (λ x. x.id) (λ x. is_pending x.status) s.tasks))))

pub lease-IsSound :
    (s : DurableQueue) (worker : String) (limit now : ℕ)
    → IsSound s
    → IsSound (lease s worker limit now).1
unfolding lease
lease-IsSound s worker limit now v = record {
  allows_one = v.allows_one;
  keyed = λ k. rw (lease_rows-keyed now k (oldest s limit) s.tasks) (v.keyed k);
  bounded =
      lease_rows-bounded s.max_attempts now (oldest s limit) s.tasks
        (oldest-pending s limit v.keyed) (λ k. oldest-keyed s limit k (v.keyed k)) v.bounded;
}

insert_new-IsSound :
    (s : DurableQueue) (tid fp body : String) (now : ℕ)
    → IsSound s
    → IsSound (insert_new s tid fp body now).1
insert_new-IsSound s tid fp body now v = elim (Option-cases (fetchone (has_id tid) s.tasks)) [
  | inr (x, old) ↦ rw old v
  | inl new ↦ rw new (record {
    allows_one = v.allows_one;
    keyed = λ k. append-keyed (λ x. x.id) s.tasks _ new v.keyed k;
    bounded =
        All-append (WithinLimit s.max_attempts) s.tasks _ v.bounded
          ((omega arith, λ _. v.allows_one), tt);
  })
]

enqueue_row-IsSound :
    (s : DurableQueue) (tid fp body : String) (now : ℕ) (o : Option Task)
    → IsSound s
    → IsSound (enqueue_row s tid fp body now o).1
unfolding enqueue_row
enqueue_row-IsSound s tid fp body now (some row) v = v
enqueue_row-IsSound s tid fp body now none v = insert_new-IsSound s tid fp body now v

ack-IsSound : (s : DurableQueue) (k : String) (now : ℕ) → IsSound s → IsSound (ack s k now)
unfolding ack
ack-IsSound s k now v =
    let f = λ (r : Task). record r { status = done; updated_at = now } in
    record {
      allows_one = v.allows_one;
      keyed = λ j. rw (update-keyed (λ x. x.id) (has_id k) f s.tasks j (λ r. refl)) (v.keyed j);
      bounded =
          All-update (WithinLimit s.max_attempts) (has_id k) f s.tasks (λ r _ w. (w.0, λ e. cc))
            v.bounded;
    }

-- the UPDATE of `fail`, on a row of the table
failed-WithinLimit :
    (n now : ℕ) (k : String) (row x : Task)
    → WithinLimit n x
    → (has_id k x ≡ true → eqb x.attempts row.attempts ≡ true)
    → WithinLimit n (
        if has_id k x
        then record x { status = if ltb row.attempts n then pending else dead; updated_at = now }
        else x)
failed-WithinLimit n now k row x w same = ground (arith, w, same)

fail_row-IsSound :
    (s : DurableQueue) (k : String) (now : ℕ) (o : Option Task)
    → fetchone (has_id k) s.tasks ≡ o
    → IsSound s
    → IsSound (fail_row s k now o).1
unfolding fail_row
fail_row-IsSound s k now none found v = v
fail_row-IsSound s k now (some row) found v =
    let f = λ (r : Task). record r {
      status = if ltb row.attempts s.max_attempts then pending else dead;
      updated_at = now;
    } in
    record {
      allows_one = v.allows_one;
      keyed = λ j. rw (update-keyed (λ x. x.id) (has_id k) f s.tasks j (λ r. refl)) (v.keyed j);
      bounded = All-updated (WithinLimit s.max_attempts) (has_id k) f s.tasks (
          All-imp (λ x h. failed-WithinLimit s.max_attempts now k row x h.0 h.1) s.tasks
            (All-both _ _ s.tasks v.bounded (
              All-of_fetched (λ x. x.id) (λ x. eqb x.attempts row.attempts) k s.tasks row found
                (ground arith) (v.keyed k))));
    }

-- The calls of a worker and of a producer.
pub data Call : Type 0 where
  enqueue_call : String → String → String → Call
  lease_call : String → ℕ → Call
  ack_call fail_call : String → Call

unfoldable pub step : (String → String) → DurableQueue → ℕ → Call → DurableQueue
unfolding enqueue lease ack fail
step sha256 s now (enqueue_call body task_id fresh) = (enqueue sha256 s body task_id fresh now).1
step sha256 s now (lease_call worker limit) = (lease s worker limit now).1
step sha256 s now (ack_call k) = ack s k now
step sha256 s now (fail_call k) = (fail s k now).1

pub step-IsSound :
    (sha256 : String → String) (s : DurableQueue) (now : ℕ) (c : Call)
    → IsSound s
    → IsSound (step sha256 s now c)
unfolding step
step-IsSound sha256 s now (enqueue_call body task_id fresh) v =
    enqueue_row-IsSound s (if task_id == "" then fresh else task_id) (sha256 body) body now
      (fetchone (is_open (sha256 body)) s.tasks) v
step-IsSound sha256 s now (lease_call worker limit) v = lease-IsSound s worker limit now v
step-IsSound sha256 s now (ack_call k) v = ack-IsSound s k now v
step-IsSound sha256 s now (fail_call k) v =
    fail_row-IsSound s k now (fetchone (has_id k) s.tasks) refl v
