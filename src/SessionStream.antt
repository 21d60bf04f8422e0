-- ===== src/SessionStream.antt =====
-- classes StreamEvent and SessionEventBuffer of noesis_harness/session_stream.py. `size` is the number of
-- bytes of the JSON text of an event's envelope; the data of an event is its JSON text. A last_event_id
-- below 0, which `since` refuses, is not modelled.
pub mod Reconnect
use noesis_harness_agent_mem.Table.{select}
use noesis_harness_agent_mem.Prelude.{
  ok, err, ltb, if◌then◌else◌, length, drop, Result, ℕ, ◌+◌, ◌-◌, String, ◌||◌, Option, none, some,
  List, [], ◌∷◌, ◌++◌, ◌==◌,
}

pub record StreamEvent : Type 0 where
  pub session_id : String
  pub sequence : ℕ
  pub kind : String
  pub data_text : String
  pub task_id : Option String
  pub created_at : ℕ

pub data Error : Type 0 where
  invalid_event_identity event_exceeds_bounded_payload : Error
  invalid_buffer_configuration : Error

abbrev pub max_event_bytes : ℕ
max_event_bytes = 65536

-- what the envelope of an event raises, if anything
unfoldable pub envelope : (StreamEvent → ℕ) → StreamEvent → Option Error
envelope size e =
    if (e.session_id == "") || ltb e.sequence 1 || (e.kind == "")
    then some invalid_event_identity
    else if ltb max_event_bytes (size e)
    then some event_exceeds_bounded_payload
    else none

pub record SessionEventBuffer : Type 0 where
  pub session_id : String
  pub max_events : ℕ
  pub events : List StreamEvent
  pub next_sequence : ℕ

unfoldable pub init : String → ℕ → Result Error SessionEventBuffer
init session_id max_events =
    if (session_id == "") || ltb max_events 1
    then err invalid_buffer_configuration
    else ok (record {
      session_id = session_id;
      max_events = max_events;
      events = [];
      next_sequence = 1;
    })

-- `del events[: len(events) - max]` where there are more than `max`
abbrev pub trim : ℕ → List StreamEvent → List StreamEvent
trim max_events es = if ltb max_events (length es) then drop (length es - max_events) es else es

abbrev pub new_event : SessionEventBuffer → String → String → Option String → ℕ → StreamEvent
new_event s kind data_text task_id now = record {
  session_id = s.session_id;
  sequence = s.next_sequence;
  kind = kind;
  data_text = data_text;
  task_id = task_id;
  created_at = now;
}

abbrev pub publish_unless :
    SessionEventBuffer → StreamEvent → Option Error → Result Error StreamEvent × SessionEventBuffer
publish_unless s e (some x) = (err x, s)
publish_unless s e none = (
  ok e,
  record s { events = trim s.max_events (s.events ++ e ∷ []); next_sequence = s.next_sequence + 1 },
)

unfoldable pub publish :
    (StreamEvent → ℕ)
    → SessionEventBuffer
    → String
    → String
    → Option String
    → ℕ
    → Result Error StreamEvent × SessionEventBuffer
publish size s kind data_text task_id now =
    let e = new_event s kind data_text task_id now in publish_unless s e (envelope size e)

unfoldable pub since : SessionEventBuffer → ℕ → List StreamEvent
since s last_event_id = select (λ e. ltb last_event_id e.sequence) s.events
