-- ===== src/Nextgen/Ledger.antt =====
-- class DurableCommandLedger of noesis_harness/nextgen.py. The callable is a function from a world to its
-- result, a value of type `V`, or an exception, and the world that it leaves. `dumps` is
-- `canonical_json`, which raises TypeError (`none`) at a value that JSON does not have, and `loads` is
-- json.loads: it need not give back the value that was written.
pub mod Replaying
use noesis_harness_agent_mem.Table.{fetchone}
use noesis_harness_agent_mem.Prelude.{
  ok, err, if◌then◌else◌, Result, ℕ, String, Bool, true, false, Option, none, some, List, [], ◌∷◌,
  ◌++◌, ◌==◌,
}

pub record Command : Type 0 where
  pub command_id : String
  pub result : String
  pub created_at : ℕ

pub data Error : Type 0 where
  value_error type_error : Error
  raised : String → Error

abbrev pub has_id : String → Command → Bool
has_id k r = r.command_id == k

module _ {ℓ κ} {W : Type ℓ} {V : Type κ} (dumps : V → Option String) (loads : String → V) where
  -- the INSERT of the text; an exception rolls the transaction back
  abbrev pub insert_text :
      List Command → String → ℕ → V → W → Option String → Result Error (V × Bool) × List Command × W
  insert_text rows k now v w none = (err type_error, rows, w)
  insert_text rows k now v w (some text) =
      (ok (v, true), rows ++ record { command_id = k; result = text; created_at = now } ∷ [], w)

  -- after the callable
  abbrev pub commit :
      List Command → String → ℕ → Result String V × W → Result Error (V × Bool) × List Command × W
  commit rows k now (err e, w) = (err (raised e), rows, w)
  commit rows k now (ok v, w) = insert_text rows k now v w (dumps v)

  abbrev pub replay_or :
      List Command
      → String
      → (W → Result String V × W)
      → ℕ
      → W
      → Option Command
      → Result Error (V × Bool) × List Command × W
  replay_or rows k fn now w (some row) = (ok (loads row.result, false), rows, w)
  replay_or rows k fn now w none = commit rows k now (fn w)

  -- the result, and whether the callable ran for it
  unfoldable pub execute_once :
      List Command
      → String
      → (W → Result String V × W)
      → ℕ
      → W
      → Result Error (V × Bool) × List Command × W
  execute_once rows k fn now w =
      let reply = replay_or rows k fn now w (fetchone (has_id k) rows) in
      if k == "" then (err value_error, rows, w) else reply
