-- ===== src/Tests/RingBuffer.antt =====
-- The ring buffer of noesis_harness/ring_buffer.py on concrete inputs.
use noesis_harness_agent_mem.Prelude.{ℕ, ◌≡◌, refl, [], ◌∷◌}
use noesis_harness_agent_mem.Deque.{append_bounded}
use noesis_harness_agent_mem.RingBuffer.{RingBuffer, init, push, to_list, push_all}

program : Unit {0}
unfolding init push to_list push_all append_bounded
program = tt

abbrev two : RingBuffer ℕ
two = record { capacity = 2; buf = [] }

last_two : to_list (push_all two (1 ∷ 2 ∷ 3 ∷ [])) ≡ 2 ∷ 3 ∷ []
unfolding program
last_two = refl
