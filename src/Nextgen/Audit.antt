-- ===== src/Nextgen/Audit.antt =====
-- class AuditChain of noesis_harness/nextgen.py. The file is its lines, each ended by a newline: a
-- line holds an event, is blank, or is no JSON; a file that is not there reads as an empty one
-- does. `digest` is `sha256_hex` of an event without its event_hash. A payload is its canonical JSON,
-- none where canonical_json raises TypeError. `reload` is the canonical JSON of what json.loads makes
-- of a payload that was written: it need not be the same text, since the keys of a dict become
-- strings and their order changes. A line holds the event as it is read back.
pub mod Verifying
use noesis_harness_agent_mem.Prelude.{
  ok, err, ok, ltb, leb, eqb, if◌then◌else◌, is_some, or_else, Bool-cases, Option-cases, ltb→lt,
  lt→ltb, leb→le, le→leb, ==_ne, text_ne, length, take, drop, length-append, length-take-le, All,
  contains, len, concat, le_text, len-concat, join, total, len-join, Result, ok_injective,
  ok-ne-err, ℕ, zero, suc, ◌+◌, ◌-◌, ◌*◌, ◌≤◌, ◌<◌, min, max, String, ◌≡◌, refl, sym, ap, ap₂, ◌∙◌,
  ◌≢◌, ◌↔◌, ◌⊎◌, inl, inr, Bool, true, false, ◌&&◌, ◌||◌, not, Option, none, some, List, [], ◌∷◌,
  ◌++◌, map, arith, ◌==◌, eq_iff, eq_refl, err,
}

pub record Event : Type 0 where
  pub seq : ℕ
  pub ts : ℕ
  pub actor : String
  pub event_type : String
  pub payload : String
  pub prev_hash : String
  pub event_hash : String

pub data Line : Type 0 where
  entry : Event → Line
  blank malformed : Line

pub data Error : Type 0 where
  json_decode_error type_error : Error

pub data Reason : Type 0 where
  sequence_or_link hash_mismatch : Reason

-- the dict that `verify` returns: `ok` with the number of events and the last hash, the line that
-- is wrong, or the name of an exception
pub data Report : Type 0 where
  intact : ℕ → String → Report
  broken : ℕ → Reason → Report
  unreadable : Report

abbrev pub zero_hash : String
zero_hash = "0000000000000000000000000000000000000000000000000000000000000000"

abbrev pub last_line : Line → List Line → Line
last_line l [] = l
last_line l (entry e ∷ ls) = last_line (entry e) ls
last_line l (blank ∷ ls) = last_line l ls
last_line l (malformed ∷ ls) = last_line malformed ls

abbrev pub hash_of : Line → Result Error String
hash_of (entry e) = ok e.event_hash
hash_of blank = ok zero_hash
hash_of malformed = err json_decode_error

unfoldable pub last_hash : List Line → Result Error String
last_hash ls = hash_of (last_line blank ls)

-- the loop of _next_seq
abbrev pub last_seq : ℕ → List Line → Result Error ℕ
last_seq seq [] = ok seq
last_seq seq (entry e ∷ ls) = last_seq e.seq ls
last_seq seq (blank ∷ ls) = last_seq seq ls
last_seq seq (malformed ∷ ls) = err json_decode_error

abbrev pub next : Result Error ℕ → Result Error ℕ
next (ok n) = ok (n + 1)
next (err e) = err e

unfoldable pub next_seq : List Line → Result Error ℕ
next_seq ls = next (last_seq 0 ls)

module _ (digest : ℕ → ℕ → String → String → String → String → String) where
  abbrev pub new_event : ℕ → ℕ → String → String → String → String → Event
  new_event seq ts actor event_type payload prev = record {
    seq = seq;
    ts = ts;
    actor = actor;
    event_type = event_type;
    payload = payload;
    prev_hash = prev;
    event_hash = digest seq ts actor event_type payload prev;
  }

  abbrev pub chained :
      ℕ
      → String
      → String
      → Option String
      → Result Error ℕ
      → Result Error String
      → Result Error Event
  chained ts actor event_type payload (err e) prev = err e
  chained ts actor event_type payload (ok seq) (err e) = err e
  chained ts actor event_type none (ok seq) (ok prev) = err type_error
  chained ts actor event_type (some payload) (ok seq) (ok prev) =
      ok (new_event seq ts actor event_type payload prev)

  -- the event that `append` makes, from what the file holds
  unfoldable pub make_event : List Line → String → String → Option String → ℕ → Result Error Event
  make_event ls actor event_type payload now =
      chained now actor event_type payload (next_seq ls) (last_hash ls)

  -- the loop of `verify`; `count` events were read before the line with number `line_no`
  unfoldable pub verify_from : List Line → ℕ → ℕ → String → ℕ → Report
  verify_from [] line_no expected previous count = intact count previous
  verify_from (blank ∷ ls) line_no expected previous count =
      verify_from ls (line_no + 1) expected previous count
  verify_from (malformed ∷ ls) line_no expected previous count = unreadable
  verify_from (entry e ∷ ls) line_no expected previous count =
      let rest = verify_from ls (line_no + 1) (expected + 1) e.event_hash (count + 1) in
      if not (eqb e.seq expected) || not (e.prev_hash == previous)
      then broken line_no sequence_or_link
      else if not (digest e.seq e.ts e.actor e.event_type e.payload e.prev_hash == e.event_hash)
      then broken line_no hash_mismatch
      else rest

  unfoldable pub verify : List Line → Report
  verify ls = verify_from ls 1 1 zero_hash 0

module _ (digest : ℕ → ℕ → String → String → String → String → String)
    (reload : String → String) where
  -- the line that `append` writes, as it is read back
  abbrev pub write : List Line → Result Error Event → List Line
  write ls (ok e) = ls ++ entry (record e { payload = reload e.payload }) ∷ []
  write ls (err e) = ls

  unfoldable pub append :
      List Line → String → String → Option String → ℕ → Result Error Event × List Line
  append ls actor event_type payload now =
      let made = make_event digest ls actor event_type payload now in (made, write ls made)
