-- ===== src/WorkCoordinator/Ownership.antt =====
-- One live owner: what keeps a leased task of noesis_harness/orchestration.py with its owner, and a
-- done one done.
use mathlib.Core.Path.{subst}
use noesis_harness_agent_mem.Prelude.{
  eqb, if◌then◌else◌, is_some, Bool-cases, Option-cases, All, contains, ℕ, ◌+◌, ◌≤◌, String, ◌≡◌,
  refl, sym, ap, ◌∙◌, ◌≢◌, inl, inr, Bool, true, false, ◌||◌, none, List, [], ◌∷◌, arith, ◌==◌,
  eq_iff,
}
use noesis_harness_agent_mem.Table.{fetchone, count, update}
use noesis_harness_agent_mem.Table.Counting.{count-update, count-append, count-eq-zero_of_fetchone}
use noesis_harness_agent_mem.Table.Holding.{All-imp, All-updated, All-append}
use noesis_harness_agent_mem.WorkCoordinator.{
  Item, WorkCoordinator, has_id, ready, is_allowed, is_claimable, is_leased, mark_leased, lease_row,
  claim_rows, claim, heartbeat, complete, reclaim_expired, add, is_kept, is_owned, is_expired, Call,
  add_call, claim_call, heartbeat_call, complete_call, reclaim_call, step, run, pending,
}
use noesis_harness_agent_mem.WorkCoordinator.Claiming.{Held, HeldRow}

-- A property of the rows that every UPDATE of `claim` keeps, `claim` keeps.
module _ (P : List Item → Type 0) (now until : ℕ) (agent : String)
    (keep : (k : String) (rows : List Item)
      → P rows
      → P (update (is_claimable k now) (mark_leased agent until) rows)) where
  claim_rows-keeps :
      (s : WorkCoordinator) (scopes : List String) (ttl : ℕ) (rows : List Item)
      → now + ttl ≡ until
      → P s.rows
      → P (claim_rows s agent scopes ttl now rows).1.rows
  unfolding claim_rows
  claim_rows-keeps s scopes ttl [] e h = h
  claim_rows-keeps s scopes ttl (row ∷ rows) e h = elim (Bool-cases (is_allowed scopes row)) [
    | inr shut ↦ rw shut (claim_rows-keeps s scopes ttl rows e h)
    | inl allowed ↦
        let after : P (lease_row s agent ttl now row).rows =
          subst (λ u. P (update (is_claimable row.task_id now) (mark_leased agent u) s.rows))
            (sym e) (keep row.task_id s.rows h) in
        elim (Bool-cases (eqb (count (is_claimable row.task_id now) s.rows) 1)) [
          | inl one ↦ rw (allowed, one) after
          | inr two ↦
              rw (allowed, two)
                (claim_rows-keeps (lease_row s agent ttl now row) scopes ttl rows e after)
        ]
  ]

  pub claim-keeps :
      (s : WorkCoordinator) (scopes : List String) (ttl : ℕ)
      → now + ttl ≡ until
      → P s.rows
      → P (claim s agent scopes ttl now).1.rows
  claim-keeps s scopes ttl e h = elim (Bool-cases ((agent == "") || eqb ttl 0)) [
    | inl bad ↦ unfold claim in rw bad h
    | inr good ↦ unfold claim in rw good (claim_rows-keeps s scopes ttl (ready s now) e h)
  ]

-- the calls, at their readings of the clock, that spare the lease of `k` by `h` until `e`: no call after
-- `e`, and neither a heartbeat nor a completion by the owner itself
abbrev pub Spares : String → String → ℕ → ℕ → Call → Type 0
Spares k h e now (add_call j deps scope) = Unit
Spares k h e now (claim_call agent scopes ttl) = now ≤ e
Spares k h e now (heartbeat_call j agent ttl) = agent ≢ h
Spares k h e now (complete_call j agent result) = agent ≢ h
Spares k h e now reclaim_call = now ≤ e

abbrev pub AllSpare : String → String → ℕ → List (ℕ × Call) → Type 0
AllSpare k h e = All (λ c. Spares k h e c.0 c.1)

bool_clash : true ≡ false → ⊥
bool_clash e = cc

-- an UPDATE that touches no row at `k`
updated-HeldRow :
    (k h : String) (e : ℕ) (q : Item → Bool) (f : Item → Item) (r : Item)
    → (q r ≡ true → (f r).task_id ≡ r.task_id)
    → (has_id k r ≡ true
        → is_leased r.status ≡ true
        → r.owner ≡ h
        → e ≤ r.lease_until
        → q r ≡ false)
    → HeldRow k h e r
    → HeldRow k h e (if q r then f r else r)
updated-HeldRow k h e q f r same spare w = elim (Bool-cases (q r)) [
  | inr c ↦ rw c w
  | inl c ↦ rw c (λ g.
      let own : has_id k r ≡ true = ap (λ j. j == k) (sym (same c)) ∙ g in
      absurd (bool_clash (sym c ∙ spare own (w own).0.0 (w own).0.1 (w own).1)))
]

update-Held :
    (k h : String) (e : ℕ) (q : Item → Bool) (f : Item → Item) (rows : List Item)
    → ((r : Item) → q r ≡ true → (f r).task_id ≡ r.task_id)
    → ((r : Item)
        → has_id k r ≡ true
        → is_leased r.status ≡ true
        → r.owner ≡ h
        → e ≤ r.lease_until
        → q r ≡ false)
    → Held k h e rows
    → Held k h e (update q f rows)
update-Held k h e q f rows same spare v = record {
  present =
      omega
        (arith, v.present, count-update (has_id k) q f rows (λ r c. ap (λ j. j == k) (same r c)));
  held =
      All-updated (HeldRow k h e) q f rows
        (All-imp (λ r w. updated-HeldRow k h e q f r (same r) (spare r) w) rows v.held);
}

-- a new identifier is not one that is held
other_id :
    (s : WorkCoordinator) (j k h : String) (e : ℕ) (v : Held k h e s.rows)
    → is_some (fetchone (has_id j) s.rows) ≡ false
    → (j == k) ≡ true
    → ⊥
other_id s j k h e v new same =
    let free : fetchone (has_id j) s.rows ≡ none =
      elim (Option-cases (fetchone (has_id j) s.rows)) [
        | inl n ↦ n
        | inr (x, f) ↦ absurd (bool_clash (ap is_some (sym f) ∙ new))
      ] in
    omega (
      arith,
      v.present,
      count-eq-zero_of_fetchone (has_id j) s.rows free,
      ap (λ i. count (has_id i) s.rows) ((eq_iff j k).0 same),
    )

add-Held :
    (s : WorkCoordinator) (j : String) (deps : List String) (scope k h : String) (e : ℕ)
    → Held k h e s.rows
    → Held k h e (add s j deps scope).1.rows
add-Held s j deps scope k h e v = elim (Bool-cases ((j == "") || contains deps j)) [
  | inl bad ↦ unfold add in rw bad v
  | inr good ↦ elim (Bool-cases (is_some (fetchone (has_id j) s.rows))) [
    | inl old ↦ unfold add in rw (good, old) v
    | inr new ↦
        unfold add in
        rw (good, new)
          (record {
            present = omega (arith, v.present, count-append (has_id k) s.rows _);
            held =
                All-append (HeldRow k h e) s.rows _ v.held
                  (λ same. absurd (other_id s j k h e v new same), tt);
          })
  ]
]

step-Held :
    (sha256 : String → String) (s : WorkCoordinator) (k h : String) (e now : ℕ) (c : Call)
    → Spares k h e now c
    → Held k h e s.rows
    → Held k h e (step sha256 s now c).rows
unfolding step
step-Held sha256 s k h e now (add_call j deps scope) sp v = add-Held s j deps scope k h e v
step-Held sha256 s k h e now (claim_call agent scopes ttl) sp v =
    claim-keeps (Held k h e) now (now + ttl) agent
      (λ j rows w.
        update-Held k h e (is_claimable j now) (mark_leased agent (now + ttl)) rows (λ r c. refl)
          (λ r own l o le. ground (arith, l, le, sp)) w)
      s scopes ttl refl v
step-Held sha256 s k h e now (heartbeat_call j agent ttl) sp v =
    unfold heartbeat in
    update-Held k h e (is_kept j agent now) (λ r. record r { lease_until = now + ttl }) s.rows
      (λ r c. refl) (λ r own l o le. ground (arith, o, sp, eq_iff r.owner agent)) v
step-Held sha256 s k h e now (complete_call j agent result) sp v =
    unfold complete in
    update-Held k h e (is_owned j agent) _ s.rows (λ r c. refl)
      (λ r own l o le. ground (arith, o, sp, eq_iff r.owner agent)) v
step-Held sha256 s k h e now reclaim_call sp v =
    unfold reclaim_expired in
    update-Held k h e (is_expired now)
      (λ r. record r { status = pending; owner = ""; lease_until = 0 }) s.rows (λ r c. refl)
      (λ r own l o le. ground (arith, l, le, sp)) v

pub run-Held :
    (sha256 : String → String) (s : WorkCoordinator) (k h : String) (e : ℕ)
    (calls : List (ℕ × Call))
    → AllSpare k h e calls
    → Held k h e s.rows
    → Held k h e (run sha256 s calls).rows
unfolding run
run-Held sha256 s k h e [] sp v = v
run-Held sha256 s k h e ((now, c) ∷ cs) sp v =
    run-Held sha256 (step sha256 s now c) k h e cs sp.1 (step-Held sha256 s k h e now c sp.0 v)
