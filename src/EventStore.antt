-- ===== src/EventStore.antt =====
-- class EventStore of noesis_harness/event_store.py. The file is its lines that end in a newline
-- and the rest after the last newline, if any; a line holds an event, is blank, is no JSON, or is
-- JSON but no object. Text that is written after an unfinished line continues it: two JSON texts in
-- a row are no JSON. `fingerprint` is `_fingerprint`; a payload is its canonical JSON text, and one
-- that has none (json.dumps raises TypeError) is left out. `reload` is the
-- canonical text of what json.loads makes of a payload that was written: it need not be the same
-- text, since the keys of a dict become strings and their order changes. A line holds the event as
-- it is read back.
pub mod Replay
pub mod Tearing
use noesis_harness_agent_mem.Prelude.{
  ok, err, if◌then◌else◌, contains, Result, ℕ, suc, max, String, Bool, true, false, not, Option,
  none, some, List, [], ◌∷◌, ◌++◌, ◌==◌,
}
use noesis_harness_agent_mem.Dict.{lookup, insert}

pub record Event : Type 0 where
  pub event_id : String
  pub type : String
  pub payload : String
  pub seq : ℕ

pub data Line : Type 0 where
  entry : Event → Line
  blank malformed scalar : Line

pub record LogFile : Type 0 where
  pub lines : List Line
  pub rest : Option Line

pub data Error : Type 0 where
  corrupt conflict : Error

-- `seen` is the set of the keys of `fingerprints`
pub record EventStore : Type 0 where
  pub file : LogFile
  pub seen : List String
  pub fingerprints : List (String × String)
  pub seq : ℕ

-- what _read_records yields, whether it raises then, and the file after the repair of its tail
pub record Reading : Type 0 where
  pub records : List Event
  pub fails : Bool
  pub file : LogFile

abbrev pub is_last : List Line → Option Line → Bool
is_last [] none = true
is_last [] (some l) = false
is_last (l ∷ ls) rest = false

abbrev pub with_line : Line → Reading → Reading
with_line l r = record r { file = record { lines = l ∷ r.file.lines; rest = r.file.rest } }

-- one round of the loop, given the lines after it and what is read of them
abbrev pub read_line : Line → Bool → LogFile → Reading → Reading
read_line (entry e) last after r = with_line (entry e) (record r { records = e ∷ r.records })
read_line blank last after r = with_line blank r
read_line malformed last after r =
    if last
    then record { records = []; fails = false; file = record { lines = []; rest = none } }
    else record {
      records = [];
      fails = true;
      file = record { lines = malformed ∷ after.lines; rest = after.rest };
    }
read_line scalar last after r = record {
  records = [];
  fails = true;
  file = record { lines = scalar ∷ after.lines; rest = after.rest };
}

abbrev pub read_rest : Option Line → Reading
read_rest none = record { records = []; fails = false; file = record { lines = []; rest = none } }
read_rest (some (entry e)) = record {
  records = e ∷ [];
  fails = false;
  file = record { lines = []; rest = some (entry e) };
}
read_rest (some blank) = record {
  records = [];
  fails = false;
  file = record { lines = []; rest = some blank };
}
read_rest (some malformed) = record {
  records = [];
  fails = false;
  file = record { lines = []; rest = none };
}
read_rest (some scalar) = record {
  records = [];
  fails = true;
  file = record { lines = []; rest = some scalar };
}

unfoldable pub read_records : List Line → Option Line → Reading
read_records [] rest = read_rest rest
read_records (l ∷ ls) rest =
    read_line l (is_last ls rest) (record { lines = ls; rest = rest }) (read_records ls rest)

abbrev pub add : List String → String → List String
add xs x = if contains xs x then xs else xs ++ x ∷ []

abbrev pub differs : Option String → String → Bool
differs none fp = false
differs (some f) fp = not (f == fp)

abbrev pub blank_store : LogFile → EventStore
blank_store file = record { file = file; seen = []; fingerprints = []; seq = 0 }

-- the line that the file ends in after a write
abbrev pub written : Option Line → Event → Line
written none e = entry e
written (some blank) e = entry e
written (some (entry x)) e = malformed
written (some malformed) e = malformed
written (some scalar) e = malformed

abbrev pub write : LogFile → Event → LogFile
write file e = record { lines = file.lines ++ written file.rest e ∷ []; rest = none }

module _ (fingerprint : String → String → String) where
  -- one record of _load_seen
  abbrev pub note : EventStore → Event → EventStore
  note s e = record s {
    seen = add s.seen e.event_id;
    fingerprints = insert e.event_id (fingerprint e.type e.payload) s.fingerprints;
    seq = max s.seq e.seq;
  }

  -- the loop of _load_seen; a conflict is raised before what the reading raises later
  unfoldable pub load_events : EventStore → List Event → Bool → Result Error EventStore
  load_events s [] fails = if fails then err corrupt else ok s
  load_events s (e ∷ es) fails =
      let rest = load_events (note s e) es fails in
      if differs (lookup e.event_id s.fingerprints) (fingerprint e.type e.payload)
      then err conflict
      else rest

  -- the constructor, on the file at `path`
  unfoldable pub init : LogFile → Result Error EventStore
  unfolding load_events
  init file =
      let r = read_records file.lines file.rest in
      load_events (blank_store r.file) r.records r.fails

  abbrev pub identity : String → String → String → String
  identity type payload event_id = if event_id == "" then fingerprint type payload else event_id

module _ (fingerprint : String → String → String) (reload : String → String) where
  -- an absent event_id is the empty text
  unfoldable pub append : EventStore → String → String → String → Result Error String × EventStore
  append s type payload event_id =
      let ident = identity fingerprint type payload event_id in
      let e : Event = record {
        event_id = ident;
        type = type;
        payload = reload payload;
        seq = suc s.seq;
      } in
      if contains s.seen ident
      then (
        if differs (lookup ident s.fingerprints) (fingerprint type payload)
            then err conflict
            else ok ident,
        s,
      )
      else (
        ok ident,
        record {
          file = write s.file e;
          seen = s.seen ++ ident ∷ [];
          fingerprints = insert ident (fingerprint type payload) s.fingerprints;
          seq = suc s.seq;
        },
      )

-- `project`: the fold of the events through the reducers; an event with no reducer is skipped
module _ {ℓ} {S : Type ℓ} (reducer : String → Option (S → String → S)) where
  abbrev pub reduce : Option (S → String → S) → S → String → S
  reduce none state payload = state
  reduce (some f) state payload = f state payload

  -- project_chain
  unfoldable pub project_events : S → List Event → S
  project_events state [] = state
  project_events state (e ∷ es) = project_events (reduce (reducer e.type) state e.payload) es

  unfoldable pub project : LogFile → S → Result Error S
  project file state =
      let r = read_records file.lines file.rest in
      if r.fails then err corrupt else ok (project_events state r.records)
