-- ===== src/Hitl/Approval.antt =====
-- A draft never becomes sent without an approval (noesis_harness/hitl.py).
use noesis_harness_agent_mem.Prelude.{
  is_some, Bool-cases, All, ℕ, String, ◌≡◌, refl, ◌≢◌, inl, inr, Bool, true, false, ◌||◌, Option,
  none, some, List, [], ◌∷◌, arith, eq_iff,
}
use noesis_harness_agent_mem.Table.{fetchone, update}
use noesis_harness_agent_mem.Table.Holding.{All-append, All-fetchone, All-updated, All-imp}
use noesis_harness_agent_mem.Table.Finding.{fetchone_sound}
use noesis_harness_agent_mem.Hitl.{
  Draft, Status, approved, rejected, sent, Call, draft_call, approve_call, reject_call, sent_call,
  has_id, is_draft, is_approved, is_sent, add_draft, set_row, step, run,
}

-- no draft with the identifier is approved or sent
abbrev pub Unapproved : String → List Draft → Type 0
Unapproved k =
    All (λ r. has_id k r ≡ true → (is_approved r.status ≡ false) × (is_sent r.status ≡ false))

-- The calls hold no approval of the draft.
abbrev pub NoApproval : String → List (ℕ × Call) → Type 0
NoApproval k = All (λ c. (t : String) → c.1 ≡ approve_call t → t ≢ k)

add_draft-Unapproved :
    (k : String) (rows : List Draft) (text fresh : String) (now : ℕ)
    → Unapproved k rows
    → Unapproved k (add_draft rows text fresh now).1
unfolding add_draft
add_draft-Unapproved k rows text fresh now h =
    elim (Bool-cases (is_some (fetchone (has_id fresh) rows))) [
      | inl old ↦ rw old h
      | inr new ↦ rw new (All-append _ rows _ h ((λ _. (refl, refl)), tt))
    ]

-- a write to another draft, or of a status that is neither
write-Unapproved :
    (k j : String) (status : Status) (now : ℕ) (rows : List Draft)
    → (j ≡ k → (is_approved status ≡ false) × (is_sent status ≡ false))
    → Unapproved k rows
    → Unapproved k (update (has_id j) (λ r. record r { status = status; updated_at = now }) rows)
write-Unapproved k j status now rows safe h =
    All-updated
      (λ r. has_id k r ≡ true → (is_approved r.status ≡ false) × (is_sent r.status ≡ false))
      (has_id j) (λ r. record r { status = status; updated_at = now }) rows
      (All-imp (λ r f e. ground (arith, f, e, safe, eq_iff r.id j, eq_iff r.id k)) rows h)

set_row-Unapproved :
    (k j : String) (status : Status) (allow : Status → Bool) (now : ℕ) (rows : List Draft)
    (o : Option Draft)
    → ((row : Draft)
        → o ≡ some row
        → allow row.status ≡ true
        → j ≡ k
        → (is_approved status ≡ false) × (is_sent status ≡ false))
    → Unapproved k rows
    → Unapproved k (set_row rows j status allow now o).1
unfolding set_row
set_row-Unapproved k j status allow now rows none safe h = h
set_row-Unapproved k j status allow now rows (some row) safe h =
    elim (Bool-cases (allow row.status)) [
      | inl e ↦ rw e (write-Unapproved k j status now rows (safe row refl e) h)
      | inr e ↦ rw e h
    ]

-- the row at an unapproved draft is neither approved nor sent
fetched_apart :
    (k j : String) (rows : List Draft) (row : Draft)
    → Unapproved k rows
    → fetchone (has_id j) rows ≡ some row
    → j ≡ k
    → (is_approved row.status ≡ false) × (is_sent row.status ≡ false)
fetched_apart k j rows row h f e =
    All-fetchone _ (has_id j) rows row h f
      (ground (arith, eq_iff row.id k, eq_iff row.id j, fetchone_sound (has_id j) rows row f, e))

step-Unapproved :
    (k : String) (rows : List Draft) (now : ℕ) (c : Call)
    → ((t : String) → c ≡ approve_call t → t ≢ k)
    → Unapproved k rows
    → Unapproved k (step rows now c)
unfolding step
step-Unapproved k rows now (draft_call text fresh) none_of h =
    add_draft-Unapproved k rows text fresh now h
step-Unapproved k rows now (approve_call j) none_of h =
    set_row-Unapproved k j approved is_draft now rows (fetchone (has_id j) rows)
      (λ row f a e. absurd (none_of j refl e)) h
step-Unapproved k rows now (reject_call j) none_of h =
    set_row-Unapproved k j rejected (λ s. is_draft s || is_approved s) now rows
      (fetchone (has_id j) rows) (λ row f a e. (refl, refl)) h
step-Unapproved k rows now (sent_call j) none_of h =
    set_row-Unapproved k j sent is_approved now rows (fetchone (has_id j) rows)
      (λ row f a e. absurd (ground (arith, a, fetched_apart k j rows row h f e))) h

-- Whatever calls are made, a draft that is not approved and for which no call is an approval is never
-- approved and never sent.
pub run-Unapproved :
    (k : String) (rows : List Draft) (calls : List (ℕ × Call))
    → NoApproval k calls
    → Unapproved k rows
    → Unapproved k (run rows calls)
unfolding run
run-Unapproved k rows [] none_of h = h
run-Unapproved k rows ((now, c) ∷ cs) none_of h =
    run-Unapproved k (step rows now c) cs none_of.1 (step-Unapproved k rows now c none_of.0 h)
