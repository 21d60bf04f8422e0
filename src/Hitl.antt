-- ===== src/Hitl.antt =====
-- class HitlGate of noesis_harness/hitl.py. A method takes the table, the clock and what uuid4 would
-- draw, and returns its reply beside the new table.
pub mod Approval
use noesis_harness_agent_mem.Prelude.{
  [], if◌then◌else◌, is_some, ℕ, String, Bool, true, false, ◌||◌, Option, none, some, List, ◌∷◌,
  ◌++◌, ◌==◌,
}
use noesis_harness_agent_mem.Table.{fetchone, update}

pub data Status : Type 0 where
  draft approved rejected sent : Status

pub record Draft : Type 0 where
  pub id : String
  pub text : String
  pub status : Status
  pub created_at : ℕ
  pub updated_at : ℕ

-- {"ok": True, "status": …} or {"ok": False, "reason": …, "from": …, "to": …}
pub data Reply : Type 0 where
  set : Status → Reply
  missing : Reply
  illegal_transition : Status → Status → Reply
  integrity_error : Reply

abbrev pub has_id : String → Draft → Bool
has_id k r = r.id == k

-- the argument `allow` of `_set`, as a test
abbrev pub is_draft : Status → Bool
is_draft draft = true
is_draft approved = false
is_draft rejected = false
is_draft sent = false

abbrev pub is_approved : Status → Bool
is_approved draft = false
is_approved approved = true
is_approved rejected = false
is_approved sent = false

abbrev pub is_sent : Status → Bool
is_sent draft = false
is_sent approved = false
is_sent rejected = false
is_sent sent = true

unfoldable pub add_draft : List Draft → String → String → ℕ → Option String × List Draft
add_draft rows text fresh now =
    let row : Draft = record {
      id = fresh;
      text = text;
      status = draft;
      created_at = now;
      updated_at = now;
    } in
    if is_some (fetchone (has_id fresh) rows) then (none, rows) else (some fresh, rows ++ row ∷ [])

unfoldable pub set_row :
    List Draft → String → Status → (Status → Bool) → ℕ → Option Draft → Reply × List Draft
set_row rows k status allow now none = (missing, rows)
set_row rows k status allow now (some row) =
    if allow row.status
    then (set status, update (has_id k) (λ r. record r { status = status; updated_at = now }) rows)
    else (illegal_transition row.status status, rows)

-- HitlGate._set
unfoldable pub set_status : List Draft → String → Status → (Status → Bool) → ℕ → Reply × List Draft
unfolding set_row
set_status rows k status allow now = set_row rows k status allow now (fetchone (has_id k) rows)

unfoldable pub approve : List Draft → String → ℕ → Reply × List Draft
unfolding set_status
approve rows k now = set_status rows k approved is_draft now

unfoldable pub reject : List Draft → String → ℕ → Reply × List Draft
unfolding set_status
reject rows k now = set_status rows k rejected (λ s. is_draft s || is_approved s) now

unfoldable pub mark_sent : List Draft → String → ℕ → Reply × List Draft
unfolding set_status
mark_sent rows k now = set_status rows k sent is_approved now

unfoldable pub get : List Draft → String → Option Draft
get rows k = fetchone (has_id k) rows

pub data Call : Type 0 where
  draft_call : String → String → Call
  approve_call reject_call sent_call : String → Call

unfoldable pub step : List Draft → ℕ → Call → List Draft
unfolding add_draft approve reject mark_sent
step rows now (draft_call text fresh) = (add_draft rows text fresh now).1
step rows now (approve_call k) = (approve rows k now).1
step rows now (reject_call k) = (reject rows k now).1
step rows now (sent_call k) = (mark_sent rows k now).1

unfoldable pub run : List Draft → List (ℕ × Call) → List Draft
run rows [] = rows
run rows ((now, c) ∷ cs) = run (step rows now c) cs
