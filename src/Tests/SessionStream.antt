-- ===== src/Tests/SessionStream.antt =====
-- The event buffer of noesis_harness/session_stream.py with room for two events.
use noesis_harness_agent_mem.Prelude.{
  ok, err, length, ℕ, suc, ◌+◌, ◌<◌, max, String, ◌≡◌, refl, ◌⊎◌, Option, none, List, [], ◌∷◌, map,
  arith,
}
use noesis_harness_agent_mem.Table.{select}
use noesis_harness_agent_mem.SessionStream.{
  StreamEvent, SessionEventBuffer, invalid_event_identity, init, publish, since, envelope,
}
use noesis_harness_agent_mem.SessionStream.Reconnect.{Numbered, publish_all, publish_all-since}

program : Unit {0}
unfolding init publish since envelope publish_all select
program = tt

abbrev size : StreamEvent → ℕ
size e = 100

abbrev empty : SessionEventBuffer
empty = record { session_id = "s"; max_events = 2; events = []; next_sequence = 1 }

abbrev calls : List (String × String × Option String × ℕ)
calls = ("a", "1", none, 1) ∷ ("b", "2", none, 2) ∷ ("", "x", none, 2) ∷ ("c", "3", none, 3) ∷ []

unnamed : (publish size empty "" "x" none 2).0 ≡ err invalid_event_identity
unfolding program
unnamed = refl

latest_two : map (λ e. e.sequence) (since (publish_all size empty calls) 0) ≡ 2 ∷ 3 ∷ []
unfolding program
latest_two = refl

made : init "s" 2 ≡ ok empty
unfolding program
made = refl

within : 1 < (publish_all size empty calls).next_sequence
unfolding program
within = omega arith

publish_all-since_example :
    (first : ℕ) × Numbered (max first (suc 1)) (since (publish_all size empty calls) 1)
    × (max first (suc 1) + length (since (publish_all size empty calls) 1)
        ≡ (publish_all size empty calls).next_sequence)
    × ((first ≡ 1) ⊎ (first + 2 ≡ (publish_all size empty calls).next_sequence))
publish_all-since_example = publish_all-since size "s" 2 empty calls 1 made within
