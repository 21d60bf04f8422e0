-- ===== src/TurnCheckpoint.antt =====
-- class DurableTurnCheckpointStore of noesis_harness/turn_checkpoint.py. The turn -1 of a run that
-- has no checkpoint is none. A state and an output are their canonical JSON texts; `is_object`
-- tells whether one is of a dict. `reload` is the canonical text of what json.loads makes of a state
-- that was written: it need not be the same text, since the keys of a dict become strings and their
-- order changes. A row holds the payload as it is read back; one that json.loads does not take, or
-- that lacks a field or the schema, is none. `sha` is the digest of a state or an output, `seal` the
-- digest of a payload.
pub mod Verify
pub mod Recover
pub mod Chain
pub mod Recorded
pub mod Runs
use noesis_harness_agent_mem.Table.{order_by, fetchone, update, select}
use noesis_harness_agent_mem.Prelude.{
  ok, err, ltb, leb, eqb, if◌then◌else◌, is_some, Result, ℕ, ◌+◌, String, Bool, true, false, ◌&&◌,
  ◌||◌, not, Option, none, some, List, [], ◌∷◌, ◌++◌, ◌==◌,
}

pub data Status : Type 0 where
  running checkpointed completed interrupted corrupted : Status

pub record TurnCheckpoint : Type 0 where
  pub run_id : String
  pub turn : Option ℕ
  pub status : Status
  pub state : String
  pub output_digest : String
  pub state_digest : String
  pub previous_digest : String
  pub created_at : ℕ

-- a row of turn_checkpoints
pub record Saved : Type 0 where
  pub run_id : String
  pub turn : ℕ
  pub payload : Option TurnCheckpoint
  pub digest : String

-- a row of turn_runs
pub record Run : Type 0 where
  pub run_id : String
  pub status : Status
  pub latest_turn : Option ℕ
  pub latest_digest : String

pub record Store : Type 0 where
  pub checkpoints : List Saved
  pub runs : List Run

pub data Error : Type 0 where
  run_id_required run_not_found checkpoint_corrupt checkpoint_projection_mismatch : Error
  turn_not_sequential checkpoint_replay_conflict interrupt_reason_required : Error
  checkpoint_quarantined checkpoint_chain_mismatch integrity_error : Error

abbrev pub has_run : String → Run → Bool
has_run k r = r.run_id == k

abbrev pub of_run : String → Saved → Bool
of_run k r = r.run_id == k

abbrev pub at_turn : String → ℕ → Saved → Bool
at_turn k turn r = (r.run_id == k) && eqb r.turn turn

abbrev pub same_turn : Option ℕ → Option ℕ → Bool
same_turn none none = true
same_turn none (some n) = false
same_turn (some m) none = false
same_turn (some m) (some n) = eqb m n

abbrev pub next_turn : Option ℕ → ℕ
next_turn none = 0
next_turn (some n) = n + 1

abbrev pub same_status : Status → Status → Bool
same_status running running = true
same_status checkpointed checkpointed = true
same_status completed completed = true
same_status interrupted interrupted = true
same_status corrupted corrupted = true
same_status a b = false

abbrev pub head : List Saved → Option Saved
head [] = none
head (r ∷ rs) = some r

-- the TurnCheckpoint of a run without checkpoints
abbrev pub blank : String → Status → ℕ → TurnCheckpoint
blank k status now = record {
  run_id = k;
  turn = none;
  status = status;
  state = "{}";
  output_digest = "";
  state_digest = "";
  previous_digest = "";
  created_at = now;
}

-- ORDER BY turn DESC LIMIT 1
abbrev pub last_row : Store → String → Option Saved
last_row s k = head (order_by (λ a b. leb b.turn a.turn) (select (of_run k) s.checkpoints))

-- the projection against the last record
abbrev pub compared : Run → Result Error TurnCheckpoint → Result Error TurnCheckpoint
compared run (err e) = err e
compared run (ok found) =
    if not (same_turn run.latest_turn found.turn) || not (run.latest_digest == found.state_digest)
    then err checkpoint_projection_mismatch
    else ok found

-- what a repeated turn is compared with
abbrev pub replayed :
    TurnCheckpoint
    → ℕ
    → Status
    → String
    → String
    → Result Error TurnCheckpoint
    → Result Error TurnCheckpoint
replayed current turn status state output_digest (err e) = err e
replayed current turn status state output_digest (ok existing) =
    if same_status existing.status status
      && (existing.state == state)
      && (existing.output_digest == output_digest)
      && (not (same_turn (some turn) current.turn)
          || (existing.previous_digest == current.previous_digest))
    then ok existing
    else err checkpoint_replay_conflict

module _ (is_object : String → Bool) (sha : String → String) (seal : TurnCheckpoint → String) where
  abbrev pub decode_payload : String → Option TurnCheckpoint → Result Error TurnCheckpoint
  decode_payload digest none = err checkpoint_corrupt
  decode_payload digest (some p) =
      if not (seal p == digest) || not (is_object p.state) || not (p.state_digest == sha p.state)
      then err checkpoint_corrupt
      else ok p

  unfoldable pub decode : Saved → Result Error TurnCheckpoint
  decode row = decode_payload row.digest row.payload

  abbrev pub latest_of : String → Option Saved → Option Run → Result Error TurnCheckpoint
  latest_of k row none = err run_not_found
  latest_of k none (some run) =
      if not (same_turn run.latest_turn none) || not (run.latest_digest == "")
      then err checkpoint_projection_mismatch
      else ok (blank k run.status 0)
  latest_of k (some row) (some run) = compared run (decode row)

  unfoldable pub latest : Store → String → Result Error TurnCheckpoint
  latest s k = latest_of k (last_row s k) (fetchone (has_run k) s.runs)

  abbrev pub begin_at : Store → String → ℕ → Option Run → Result Error TurnCheckpoint × Store
  begin_at s k now (some run) = (latest s k, s)
  begin_at s k now none = (
    ok (blank k running now),
    record s {
      runs =
          s.runs
          ++ record { run_id = k; status = running; latest_turn = none; latest_digest = "" } ∷ [];
    },
  )

  unfoldable pub begin : Store → String → ℕ → Result Error TurnCheckpoint × Store
  begin s k now =
      let reply = begin_at s k now (fetchone (has_run k) s.runs) in
      if k == "" then (err run_id_required, s) else reply

  abbrev pub decoded_at : Option Saved → Result Error TurnCheckpoint
  decoded_at none = err turn_not_sequential
  decoded_at (some row) = decode row

  abbrev pub new_record :
      String → ℕ → Status → String → String → TurnCheckpoint → ℕ → TurnCheckpoint
  new_record k turn status state output current now = record {
    run_id = k;
    turn = some turn;
    status = status;
    state = state;
    output_digest = sha output;
    state_digest = sha state;
    previous_digest = current.state_digest;
    created_at = now;
  }

module _ (is_object : String → Bool) (sha : String → String) (seal : TurnCheckpoint → String)
    (reload : String → String) where
  -- the INSERT and the UPDATE of one transaction
  abbrev pub save : Store → String → ℕ → TurnCheckpoint → Result Error TurnCheckpoint × Store
  save s k turn p =
      if is_some (fetchone (at_turn k turn) s.checkpoints) then (err integrity_error, s) else (
        ok p,
        record {
          checkpoints =
              s.checkpoints
              ++ record {
                run_id = k;
                turn = turn;
                payload = some (record p { state = reload p.state });
                digest = seal p;
              }
                ∷ [];
          runs =
              update (has_run k)
                (λ r. record r {
                  status = p.status;
                  latest_turn = some turn;
                  latest_digest = p.state_digest;
                })
                s.runs;
        },
      )

  abbrev pub commit_at :
      Store
      → String
      → ℕ
      → String
      → String
      → Status
      → ℕ
      → Result Error TurnCheckpoint
      → Result Error TurnCheckpoint × Store
  commit_at s k turn state output status now (err e) = (err e, s)
  commit_at s k turn state output status now (ok current) =
      if ltb turn (next_turn current.turn)
      then (
        replayed current turn status state (sha output)
            (decoded_at is_object sha seal (fetchone (at_turn k turn) s.checkpoints)),
        s,
      )
      else if not (eqb turn (next_turn current.turn))
      then (err turn_not_sequential, s)
      else save s k turn (new_record is_object sha seal k turn status state output current now)

  -- `state` is of a dict, and the turn is not negative
  unfoldable pub commit_turn :
      Store → String → ℕ → String → String → Bool → ℕ → Result Error TurnCheckpoint × Store
  commit_turn s k turn state output done now =
      commit_at s k turn state output (if done then completed else checkpointed) now
        (latest is_object sha seal s k)
