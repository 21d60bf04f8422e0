-- ===== src/Coordination/Signals.antt =====
-- class Signals of noesis_harness/coordination.py. A method takes the table, the clock and what uuid4
-- would draw; `payload` is the encoded text that json.dumps makes of the message.
pub mod Delivery
use noesis_harness_agent_mem.Prelude.{
  ℕ, ◌+◌, String, Bool, true, false, Option, none, some, List, [], ◌∷◌, ◌++◌, map, ◌&&◌, ◌||◌, not,
  ◌==◌, ltb, leb, if◌then◌else◌, Result, ok, err, is_some, contains,
}
use noesis_harness_agent_mem.Table.{select, fetchone, count, update, delete, order_by}

pub record Signal : Type 0 where
  pub id : String
  pub from_agent : String
  pub to_agent : String
  pub type : String
  pub thread_id : String
  pub payload : String
  pub created_at : ℕ
  pub read_at : Option ℕ
  pub expires_at : ℕ

pub record Signals : Type 0 where
  pub ttl : ℕ
  pub rows : List Signal

pub data Error : Type 0 where
  integrity_error : Error

abbrev pub has_id : String → Signal → Bool
has_id k r = r.id == k

-- the message's thread: that of the answered message, the one given, or a new one
abbrev pub thread_of : String → String → String → String
thread_of reply_to thread_id fresh =
    if reply_to == "" then (if thread_id == "" then fresh else thread_id) else reply_to

abbrev pub new_signal : Signals → String → String → String → String → String → String → ℕ → Signal
new_signal s from_agent payload to_agent type tid sid now = record {
  id = sid;
  from_agent = from_agent;
  to_agent = to_agent;
  type = type;
  thread_id = tid;
  payload = payload;
  created_at = now;
  read_at = none;
  expires_at = now + s.ttl;
}

-- the answered message joins the thread
unfoldable pub threaded : String → String → List Signal → List Signal
threaded reply_to tid rows =
    if reply_to == ""
    then rows
    else update (has_id reply_to) (λ r. record r { thread_id = tid }) rows

unfoldable pub send :
    Signals
    → String
    → String
    → String
    → String
    → String
    → String
    → String
    → String
    → ℕ
    → Result Error String × Signals
unfolding threaded
send s from_agent payload to_agent type thread_id reply_to fresh_thread sid now =
    let tid = thread_of reply_to thread_id fresh_thread in
    let row = new_signal s from_agent payload to_agent type tid sid now in
    if is_some (fetchone (has_id sid) s.rows)
    then (err integrity_error, s)
    else (ok sid, record s { rows = threaded reply_to tid (s.rows ++ row ∷ []) })

-- the WHERE clause that `read` puts together
abbrev pub readable : String → Bool → String → ℕ → Signal → Bool
readable agent unread_only thread_id now r =
    ltb now r.expires_at
    && ((r.to_agent == agent) || (r.to_agent == ""))
    && (not unread_only || not (is_some r.read_at))
    && ((thread_id == "") || (r.thread_id == thread_id))

abbrev pub older : Signal → Signal → Bool
older a b = leb a.created_at b.created_at

-- `later` is the second reading of the clock. With no rows the UPDATE would touch nothing either.
unfoldable pub read : Signals → String → Bool → String → ℕ → ℕ → List Signal × Signals
read s agent unread_only thread_id now later =
    let rows = order_by older (select (readable agent unread_only thread_id now) s.rows) in
    let ids = map (λ r. r.id) rows in
    (
      rows,
      if unread_only
          then record s {
            rows = update (λ r. contains ids r.id) (λ r. record r { read_at = some later }) s.rows;
          }
          else s,
    )

abbrev pub is_stale : ℕ → Signal → Bool
is_stale now r = leb r.expires_at now

unfoldable pub cleanup : Signals → ℕ → ℕ × Signals
cleanup s now = (count (is_stale now) s.rows, record s { rows = delete (is_stale now) s.rows })
