-- ===== src/TurnCheckpoint/Verify.antt =====
-- verify_chain of class DurableTurnCheckpointStore of noesis_harness/turn_checkpoint.py.
use noesis_harness_agent_mem.Table.{order_by, select}
use noesis_harness_agent_mem.Prelude.{
  ok, err, leb, if◌then◌else◌, Result, String, Bool, true, List, [], ◌∷◌, ◌==◌,
}
use noesis_harness_agent_mem.TurnCheckpoint.{
  Error, Saved, TurnCheckpoint, Store, checkpoint_chain_mismatch, decode, of_run,
}

abbrev pub rows_up : Store → String → List Saved
rows_up s k = order_by (λ a b. leb a.turn b.turn) (select (of_run k) s.checkpoints)

abbrev pub chained : String → Result Error TurnCheckpoint → Result Error Bool → Result Error Bool
chained previous (err e) rest = err e
chained previous (ok p) rest =
    if p.previous_digest == previous then rest else err checkpoint_chain_mismatch

abbrev pub digest_of : Result Error TurnCheckpoint → String
digest_of (err e) = ""
digest_of (ok p) = p.state_digest

module _ (is_object : String → Bool) (sha : String → String) (seal : TurnCheckpoint → String) where
  -- the loop of verify_chain
  unfoldable pub verify_rows : String → List Saved → Result Error Bool
  verify_rows previous [] = ok true
  verify_rows previous (row ∷ rows) =
      let p = decode is_object sha seal row in
      let rest = verify_rows (digest_of p) rows in chained previous p rest

  unfoldable pub verify_chain : Store → String → Result Error Bool
  verify_chain s k = verify_rows "" (rows_up s k)
