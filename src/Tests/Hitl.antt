-- ===== src/Tests/Hitl.antt =====
-- The approval gate of noesis_harness/hitl.py on concrete tables.
use noesis_harness_agent_mem.Prelude.{text_ne, ℕ, ◌≡◌, refl, List, [], ◌∷◌, map, arith}
use noesis_harness_agent_mem.Table.{fetchone, update}
use noesis_harness_agent_mem.Hitl.{
  Call, draft_call, approve_call, sent_call, add_draft, set_row, approve, mark_sent, step, run,
  sent,
}
use noesis_harness_agent_mem.Hitl.Approval.{NoApproval, Unapproved, run-Unapproved}

program : Unit {0}
unfolding add_draft set_row approve mark_sent fetchone update step run
program = tt

abbrev approved_first : List (ℕ × Call)
approved_first = (1, draft_call "hi" "a") ∷ (2, approve_call "a") ∷ (3, sent_call "a") ∷ []

goes_out : map (λ r. r.status) (run [] approved_first) ≡ sent ∷ []
unfolding program
goes_out = refl

abbrev unapproved : List (ℕ × Call)
unapproved =
    (1, draft_call "hi" "a")
    ∷ (2, draft_call "ho" "b")
    ∷ (3, approve_call "b")
    ∷ (4, sent_call "a")
    ∷ (5, sent_call "b")
    ∷ []

unapproved-NoApproval : NoApproval "a" unapproved
unapproved-NoApproval = (
  λ t e. cc,
  (λ t e. cc, (λ t e f. ground (arith, e, f, text_ne "b" "a" refl), (λ t e. cc, (λ t e. cc, tt)))),
)

run-Unapproved_example : Unapproved "a" (run [] unapproved)
run-Unapproved_example = run-Unapproved "a" [] unapproved unapproved-NoApproval tt
