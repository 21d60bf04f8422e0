-- ===== src/Tests/EventStore.antt =====
-- The event log of noesis_harness/event_store.py on concrete files.
use noesis_harness_agent_mem.Dict.{lookup, insert}
use noesis_harness_agent_mem.Prelude.{
  ok, err, if◌then◌else◌, Result, String, ◌≡◌, refl, none, some, [], ◌∷◌, ◌==◌,
}
use noesis_harness_agent_mem.EventStore.{
  EventStore, Error, Event, entry, conflict, init, append, read_records, load_events, project,
  project_events,
}
use noesis_harness_agent_mem.EventStore.Tearing.{
  IsOpened, append-IsOpened, torn, init-torn, unterminated, unterminated-loses_both,
}

program : Unit {0}
unfolding init append read_records load_events project project_events lookup insert
program = tt

abbrev fingerprint : String → String → String
fingerprint type payload = payload

-- json.loads of a text whose keys come back in another order
abbrev reload : String → String
reload t = if t == "{2,10}" then "{10,2}" else t

abbrev empty : EventStore
empty = record { file = record { lines = []; rest = none }; seen = []; fingerprints = []; seq = 0 }

empty-IsOpened : IsOpened fingerprint empty
unfolding program
empty-IsOpened = record { ended = refl; opened = refl }

abbrev one : EventStore
one = (append fingerprint reload empty "t" "p" "a").1

one-IsOpened : IsOpened fingerprint one
one-IsOpened = append-IsOpened fingerprint reload empty "t" "p" "a" refl empty-IsOpened

append-IsOpened_example : IsOpened fingerprint (append fingerprint reload one "t" "q" "b").1
append-IsOpened_example = append-IsOpened fingerprint reload one "t" "q" "b" refl one-IsOpened

twice : (append fingerprint reload one "t" "p" "a").1 ≡ one
unfolding program
twice = refl

-- the fingerprint of a payload that is read back as another one is lost with the process
abbrev odd : EventStore
odd = (append fingerprint reload one "t" "{2,10}" "b").1

kept : (append fingerprint reload odd "t" "{2,10}" "b").0 ≡ ok "b"
unfolding program
kept = refl

outcome : Result Error EventStore → EventStore
outcome (ok s) = s
outcome (err e) = empty

lost :
    (append fingerprint reload (outcome (init fingerprint odd.file)) "t" "{2,10}" "b").0
    ≡ err conflict
unfolding program outcome
lost = refl

reused : (append fingerprint reload one "t" "q" "a").0 ≡ err conflict
unfolding program
reused = refl

init-torn_example : init fingerprint (torn fingerprint one.file) ≡ ok one
init-torn_example = init-torn fingerprint one one-IsOpened

abbrev late : Event
late = record { event_id = "b"; type = "t"; payload = "q"; seq = 2 }

abbrev two : EventStore
two = record {
  file = record {
    lines = entry (record { event_id = "a"; type = "t"; payload = "p"; seq = 1 }) ∷ [];
    rest = some (entry late);
  };
  seen = "a" ∷ "b" ∷ [];
  fingerprints = ("a", "p") ∷ ("b", "q") ∷ [];
  seq = 2;
}

opens : init fingerprint (unterminated fingerprint one.file late) ≡ ok two
unfolding program unterminated
opens = refl

unterminated-loses_both_example :
    init fingerprint (append fingerprint reload two "t" "r" "c").1.file ≡ ok one
unterminated-loses_both_example =
    unterminated-loses_both fingerprint reload one two late "t" "r" "c" one-IsOpened opens refl
