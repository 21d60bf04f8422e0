-- ===== src/Tests/LoopGuard.antt =====
-- The loop guard of noesis_harness/loop_guard.py on concrete inputs.
use noesis_harness_agent_mem.Prelude.{ok, String, ◌≡◌, refl, true, [], ◌∷◌}
use noesis_harness_agent_mem.Table.{count}
use noesis_harness_agent_mem.Deque.{append_bounded}
use noesis_harness_agent_mem.LoopGuard.{LoopGuard, init, check, check_times}

program : Unit {0}
unfolding init check check_times append_bounded count
program = tt

abbrev text : String → String
text action = action

abbrev guard : LoopGuard
guard = record { window = 3; max_repeats = 2; seen = "read" ∷ "write" ∷ "read" ∷ [] }

built : init 8 2 ≡ ok (record { window = 8; max_repeats = 2; seen = [] })
unfolding program
built = refl

-- one repeat is let through
one_repeat : (check text (check_times text guard "run" 1) "run").0.ok ≡ true
unfolding program
one_repeat = refl
