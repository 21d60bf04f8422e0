-- ===== src/Nextgen/Ledger/Replaying.antt =====
-- A command of noesis_harness/nextgen.py that has returned is never run again.
use noesis_harness_agent_mem.Table.Finding.{fetchone-append}
use noesis_harness_agent_mem.Table.{fetchone}
use noesis_harness_agent_mem.Prelude.{
  ok, err, Bool-cases, Result, ok-ne-err, ℕ, String, ◌≡◌, refl, sym, ap, ◌∙◌, inl, inr, Bool, true,
  false, Option, none, some, List, [], ◌∷◌, ◌==◌, eq_refl,
}
use noesis_harness_agent_mem.Nextgen.Ledger.{
  Command, Error, value_error, type_error, raised, execute_once, has_id, insert_text, commit,
  replay_or,
}

module _ {ℓ} {V : Type ℓ} where
  -- a row with the text of this value
  abbrev Stored : (V → Option String) → V → Option Command → Type 0
  Stored dumps r o = (row : Command) × (o ≡ some row) × (dumps r ≡ some row.result)

  -- the result of an execution
  abbrev value_of : V → Result Error (V × Bool) → V
  value_of r (ok x) = x.0
  value_of r (err e) = r

  abbrev flag_of : Result Error (V × Bool) → Bool
  flag_of (ok x) = x.1
  flag_of (err e) = false

flag_clash : false ≡ true → ⊥
flag_clash e = cc

module _ {ℓ κ} {W : Type ℓ} {V : Type κ} (dumps : V → Option String) (loads : String → V) where
  -- the calls of `execute_once`: a command, its callable and the clock
  unfoldable pub run :
      List Command → W → List (String × (W → Result String V × W) × ℕ) → List Command × W
  run rows w [] = (rows, w)
  run rows w ((k, fn, now) ∷ cs) =
      let reply = execute_once dumps loads rows k fn now w in run reply.1 reply.2 cs

  -- the row of a command stays
  insert_text-kept :
      (rows : List Command) (k j : String) (now : ℕ) (v : V) (w : W) (o : Option String)
      (row : Command)
      → fetchone (has_id k) rows ≡ some row
      → fetchone (has_id k) (insert_text dumps loads rows j now v w o).1 ≡ some row
  insert_text-kept rows k j now v w none row there = there
  insert_text-kept rows k j now v w (some text) row there =
      fetchone-append (has_id k) rows _ ∙ (rw there refl)

  commit-kept :
      (rows : List Command) (k j : String) (now : ℕ) (o : Result String V × W) (row : Command)
      → fetchone (has_id k) rows ≡ some row
      → fetchone (has_id k) (commit dumps loads rows j now o).1 ≡ some row
  commit-kept rows k j now (err e, w) row there = there
  commit-kept rows k j now (ok r, w) row there =
      insert_text-kept rows k j now r w (dumps r) row there

  replay_or-kept :
      (rows : List Command) (k j : String) (fn : W → Result String V × W) (now : ℕ) (w : W)
      (o : Option Command) (row : Command)
      → fetchone (has_id k) rows ≡ some row
      → fetchone (has_id k) (replay_or dumps loads rows j fn now w o).1 ≡ some row
  replay_or-kept rows k j fn now w (some x) row there = there
  replay_or-kept rows k j fn now w none row there = commit-kept rows k j now (fn w) row there

  execute_once-kept :
      (rows : List Command) (k j : String) (fn : W → Result String V × W) (now : ℕ) (w : W)
      (row : Command)
      → fetchone (has_id k) rows ≡ some row
      → fetchone (has_id k) (execute_once dumps loads rows j fn now w).1 ≡ some row
  execute_once-kept rows k j fn now w row there = elim (Bool-cases (j == "")) [
    | inl empty ↦ unfold execute_once in rw empty there
    | inr named ↦
        unfold execute_once in
        rw named (replay_or-kept rows k j fn now w (fetchone (has_id j) rows) row there)
  ]

  run-kept :
      (rows : List Command) (w : W) (calls : List (String × (W → Result String V × W) × ℕ))
      (k : String) (row : Command)
      → fetchone (has_id k) rows ≡ some row
      → fetchone (has_id k) (run rows w calls).0 ≡ some row
  unfolding run
  run-kept rows w [] k row there = there
  run-kept rows w ((j, fn, now) ∷ cs) k row there =
      run-kept (execute_once dumps loads rows j fn now w).1
        (execute_once dumps loads rows j fn now w).2 cs k row
        (execute_once-kept rows k j fn now w row there)

  -- the row that an execution leaves
  insert_text-Stored :
      (rows : List Command) (k : String) (v r : V) (now : ℕ) (w : W) (o : Option String)
      → dumps v ≡ o
      → fetchone (has_id k) rows ≡ none
      → (insert_text dumps loads rows k now v w o).0 ≡ ok (r, true)
      → Stored dumps r (fetchone (has_id k) (insert_text dumps loads rows k now v w o).1)
  insert_text-Stored rows k v r now w none text free done =
      absurd (ok-ne-err (r, true) type_error (sym done))
  insert_text-Stored rows k v r now w (some t) text free done =
      let row : Command = record { command_id = k; result = t; created_at = now } in
      (
        row,
        fetchone-append (has_id k) rows (row ∷ [])
            ∙ (rw free (unfold fetchone in rw (eq_refl k) refl)),
        ap dumps (sym (ap (value_of r) done)) ∙ text,
      )

  commit-Stored :
      (rows : List Command) (k : String) (r : V) (now : ℕ) (o : Result String V × W)
      → fetchone (has_id k) rows ≡ none
      → (commit dumps loads rows k now o).0 ≡ ok (r, true)
      → Stored dumps r (fetchone (has_id k) (commit dumps loads rows k now o).1)
  commit-Stored rows k r now (err e, w) free done =
      absurd (ok-ne-err (r, true) (raised e) (sym done))
  commit-Stored rows k r now (ok x, w) free done =
      insert_text-Stored rows k x r now w (dumps x) refl free done

  replay_or-Stored :
      (rows : List Command) (k : String) (r : V) (fn : W → Result String V × W) (now : ℕ) (w : W)
      (o : Option Command)
      → fetchone (has_id k) rows ≡ o
      → (replay_or dumps loads rows k fn now w o).0 ≡ ok (r, true)
      → Stored dumps r (fetchone (has_id k) (replay_or dumps loads rows k fn now w o).1)
  replay_or-Stored rows k r fn now w (some x) got done = absurd (flag_clash (ap flag_of done))
  replay_or-Stored rows k r fn now w none got done = commit-Stored rows k r now (fn w) got done

  execute_once-Stored :
      (rows : List Command) (k : String) (r : V) (fn : W → Result String V × W) (now : ℕ) (w : W)
      → (execute_once dumps loads rows k fn now w).0 ≡ ok (r, true)
      → ((k == "") ≡ false)
        × Stored dumps r (fetchone (has_id k) (execute_once dumps loads rows k fn now w).1)
  unfolding execute_once
  execute_once-Stored rows k r fn now w done = elim (Bool-cases (k == "")) [
    | inl empty ↦ absurd (ok-ne-err (r, true) value_error (sym (rw empty at done)))
    | inr named ↦ (
      named,
      rw named
          (replay_or-Stored rows k r fn now w (fetchone (has_id k) rows) refl (rw named at done)),
    )
  ]

  execute_once-found :
      (rows : List Command) (k : String) (fn : W → Result String V × W) (now : ℕ) (w : W)
      (row : Command)
      → (k == "") ≡ false
      → fetchone (has_id k) rows ≡ some row
      → execute_once dumps loads rows k fn now w ≡ (ok (loads row.result, false), rows, w)
  unfolding execute_once
  execute_once-found rows k fn now w row named there = rw (named, there) refl

  -- Once `execute_once` has run a command and returned its result, then the result has a JSON text,
  -- and whatever calls follow, the command gives what json.loads makes of that text, whatever
  -- callable comes with it, and neither runs it nor changes the table.
  pub execute_once-replayed :
      (rows : List Command) (k : String) (r : V) (fn fn' : W → Result String V × W) (now now' : ℕ)
      (w w' : W) (calls : List (String × (W → Result String V × W) × ℕ))
      → (execute_once dumps loads rows k fn now w).0 ≡ ok (r, true)
      → (text : String) × (dumps r ≡ some text)
        × (execute_once dumps loads
              (run
                (execute_once dumps loads rows k fn now w).1
                (execute_once dumps loads rows k fn now w).2
                calls).0
              k
              fn'
              now'
              w'
            ≡ (
              ok (loads text, false),
              (run
                  (execute_once dumps loads rows k fn now w).1
                  (execute_once dumps loads rows k fn now w).2
                  calls).0,
              w',
            ))
  execute_once-replayed rows k r fn fn' now now' w w' calls done =
      let (named, stored) = execute_once-Stored rows k r fn now w done in
      let (row, there, text) = stored in
      let reply = execute_once dumps loads rows k fn now w in
      let after = run reply.1 reply.2 calls in
      let kept = run-kept reply.1 reply.2 calls k row there in
      (row.result, text, execute_once-found after.0 k fn' now' w' row named kept)
