-- ===== src/Tests/Budget.antt =====
-- The daily budget of noesis_harness/budget.py on concrete tables.
use noesis_harness_agent_mem.Prelude.{text_ne, ◌≤◌, ◌<◌, ◌≡◌, refl, true, [], arith}
use noesis_harness_agent_mem.Table.{fetchone}
use noesis_harness_agent_mem.Budget.{
  Budget, used, remaining, can_spend, write, spend, spent, exhausted,
}
use noesis_harness_agent_mem.Budget.Cap.{spend-within_cap, write-over_cap}

program : Unit {0}
unfolding used remaining can_spend write spend fetchone
program = tt

abbrev empty : Budget
empty = record { daily_cap = 3; rows = [] }

abbrev two : Budget
two = (spend empty "2026-01-01" "a" 2 true 5).1

third : (spend two "2026-01-01" "b" 1 true 6).0 ≡ spent 0
unfolding program
third = refl

fourth : (spend two "2026-01-01" "b" 2 true 6).0 ≡ exhausted 1
unfolding program
fourth = refl

spend-within_cap_example : used "2026-01-01" (spend two "2026-01-01" "b" 2 true 6).1.rows ≤ 3
unfolding program
spend-within_cap_example = spend-within_cap two "2026-01-01" "b" 2 6 true (omega arith)

write-over_cap_example :
    3 < used "2026-01-01" (write (write empty "2026-01-01" "a" 2 5).1 "2026-01-01" "b" 2 5).1.rows
unfolding program
write-over_cap_example =
    write-over_cap empty "2026-01-01" "a" "b" 2 2 5 (text_ne "a" "b" refl) refl refl refl refl
      (omega arith)
