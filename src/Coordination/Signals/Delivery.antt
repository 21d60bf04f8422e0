-- ===== src/Coordination/Signals/Delivery.antt =====
-- What Signals.send and Signals.read of noesis_harness/coordination.py deliver, and to whom.
use noesis_harness_agent_mem.Table.Counting.{
  count-select, count-update, count-append, count-imp-le, count-eq-zero_of_fetchone,
}
use noesis_harness_agent_mem.Table.Sorting.{count-order_by, All-order_by, order_by-nil}
use noesis_harness_agent_mem.Table.Holding.{All-imp, select-eq-nil, All-updated, All-selected}
use noesis_harness_agent_mem.Prelude.{
  ok, ltb, if◌then◌else◌, Bool-cases, lt→ltb, All, contains, ℕ, ◌+◌, ◌≤◌, ◌<◌, String, ◌≡◌, refl,
  ap, ◌∙◌, ◌⊎◌, inl, inr, Bool, true, false, ◌&&◌, none, some, List, [], ◌∷◌, ◌++◌, map, arith,
  ◌==◌, eq_iff, eq_refl,
}
use noesis_harness_agent_mem.Table.{select, count, update, fetchone, order_by}
use noesis_harness_agent_mem.Coordination.Signals.{
  Signal, has_id, Signals, read, older, readable, send, new_signal, thread_of, threaded,
}

abbrev ids : List Signal → List String
ids = map (λ r. r.id)

contains-count :
    (k : String) (rows : List Signal) → contains (ids rows) k ≡ ltb 0 (count (has_id k) rows)
unfolding count
contains-count k [] = refl
contains-count k (r ∷ rs) = ground (arith, contains-count k rs)

count-select-pos :
    (q : Signal → Bool) (r : Signal) (rows : List Signal)
    → 0 < count (λ x. (x.id == r.id) && q x) rows
    → 0 < count (has_id r.id) (select q rows)
unfolding count select
count-select-pos q r [] h = absurd (omega arith)
count-select-pos q r (x ∷ xs) h = ground (arith, count-select-pos q r xs)

-- every row of the table that the SELECT of `read` keeps is among the identifiers that it marks
module _ (p : Signal → Bool) where
  member-pos :
      (rows : List Signal)
      → All (λ r. p r ≡ true → 0 < count (λ x. (x.id == r.id) && p x) rows) rows
  unfolding count
  member-pos [] = tt
  member-pos (r ∷ rs) = (
    λ h. ground (arith, h, eq_refl r.id),
    All-imp (λ x h e. ground (arith, h e)) rs (member-pos rs),
  )

  marked_ids :
      (rows : List Signal)
      → All (λ r. p r ≡ true → contains (ids (order_by older (select p rows))) r.id ≡ true) rows
  marked_ids rows =
      All-imp
        (λ r h e. rw (contains-count r.id (order_by older (select p rows))) (
          rw (count-order_by older (has_id r.id) (select p rows))
            (lt→ltb 0 _ (count-select-pos p r rows (h e)))))
        rows (member-pos rows)

abbrev unread : String → ℕ → List Signal → List String
unread agent now rows = ids (order_by older (select (readable agent true "" now) rows))

-- the rows of the table after `read` has marked those of `ks`
module _ (P : Signal → Type 0) (ks : List String) (later : ℕ) where
  All-marked :
      (rows : List Signal)
      → All (λ r. P (if contains ks r.id then record r { read_at = some later } else r)) rows
      → All P (update (λ r. contains ks r.id) (λ r. record r { read_at = some later }) rows)
  All-marked rows h =
      All-updated P (λ r. contains ks r.id) (λ r. record r { read_at = some later }) rows h

-- A second `read` of unread messages by the same agent, with the same thread filter and at no earlier
-- time, returns nothing.
pub read-read_self :
    (s : Signals) (agent thread : String) (now later again last : ℕ)
    → now ≤ again
    → (read (read s agent true thread now later).1 agent true thread again last).0 ≡ []
unfolding read
read-read_self s agent thread now later again last h =
    let ks = ids (order_by older (select (readable agent true thread now) s.rows)) in
    ap (order_by older) (
      select-eq-nil (readable agent true thread again)
        (update (λ r. contains ks r.id) (λ r. record r { read_at = some later }) s.rows)
        (All-marked (λ r. readable agent true thread again r ≡ false) ks later s.rows
          (All-imp (λ r k. ground (arith, k)) s.rows
            (marked_ids (readable agent true thread now) s.rows))))
    ∙ order_by-nil older

-- A broadcast is marked as read for everybody by the first agent that reads: what any agent's next
-- `read` of unread messages returns is addressed to that agent alone.
pub read-no_broadcast :
    (s : Signals) (agent other thread : String) (now later again last : ℕ)
    → now ≤ again
    → All
        (λ r. (r.to_agent == "") ≡ false)
        (read (read s agent true "" now later).1 other true thread again last).0
unfolding read
read-no_broadcast s agent other thread now later again last h =
    All-order_by older (λ r. (r.to_agent == "") ≡ false) _
      (All-selected (λ r. (r.to_agent == "") ≡ false) (readable other true thread again) _
        (All-marked (λ r. readable other true thread again r ≡ true → (r.to_agent == "") ≡ false)
          (unread agent now s.rows) later s.rows
          (All-imp (λ r k e. ground (arith, k, e)) s.rows
            (marked_ids (readable agent true "" now) s.rows))))

-- joining a thread changes no message's readers
count-threaded :
    (p : Signal → Bool) (reply tid : String) (rows : List Signal)
    → ((r : Signal) → p (record r { thread_id = tid }) ≡ p r)
    → count p (threaded reply tid rows) ≡ count p rows
count-threaded p reply tid rows same = elim (Bool-cases (reply == "")) [
  | inl e ↦ unfold threaded in rw e
  | inr e ↦
      unfold threaded in
      rw e (count-update p (has_id reply) (λ r. record r { thread_id = tid }) rows (λ r _. same r))
]

count-single : (p : Signal → Bool) (r : Signal) → p r ≡ true → count p (r ∷ []) ≡ 1
unfolding count
count-single p r e = rw e

-- the rows that hold the new identifier and that the agent may read
count-inserted :
    (p : Signal → Bool) (sid : String) (r : Signal) (rows : List Signal)
    → ((x : Signal) → p x ≡ true → has_id sid x ≡ true)
    → fetchone (has_id sid) rows ≡ none
    → p r ≡ true
    → count p (rows ++ r ∷ []) ≡ 1
count-inserted p sid r rows imp new e =
    count-append p rows (r ∷ [])
    ∙ omega (
      arith,
      count-imp-le p (has_id sid) rows imp,
      count-eq-zero_of_fetchone (has_id sid) rows new,
      count-single p r e,
    )

-- A message that was sent is returned exactly once by the next `read` of unread messages (of any
-- thread) of an agent that it is for, directly or as a broadcast, before it expires.
pub send-read :
    (s : Signals) (from payload to type thread reply fresh sid agent : String) (now later last : ℕ)
    → fetchone (has_id sid) s.rows ≡ none
    → (to ≡ agent) ⊎ (to ≡ "")
    → later < now + s.ttl
    → ((send s from payload to type thread reply fresh sid now).0 ≡ ok sid)
      × (count
            (has_id sid)
            (read
              (send s from payload to type thread reply fresh sid now).1
              agent
              true
              ""
              later
              last).0
          ≡ 1)
unfolding send read
send-read s from payload to type thread reply fresh sid agent now later last new for live = rw new (
  refl,
  count-order_by older (has_id sid) _
      ∙ count-select (has_id sid) (readable agent true "" later) _
      ∙ count-threaded (λ r. readable agent true "" later r && has_id sid r) reply
          (thread_of reply thread fresh) _ (λ r. refl)
      ∙ count-inserted (λ r. readable agent true "" later r && has_id sid r) sid
          (new_signal s from payload to type (thread_of reply thread fresh) sid now) s.rows
          (λ x h. ground arith) new (ground (arith, eq_refl sid, eq_iff to agent, eq_iff to "")),
)
