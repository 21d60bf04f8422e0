-- ===== src/TurnCheckpoint/Recorded.antt =====
-- What the calls of noesis_harness/turn_checkpoint.py leave in the two tables: chains that verify.
use mathlib.Core.Path.{subst}
use mathlib.Core.Option
use mathlib.Core.List.{append-nil}
use noesis_harness_agent_mem.Table.Finding.{
  fetchone-update, fetchone-append, fetchone_sound, updated,
}
use noesis_harness_agent_mem.Table.{update, fetchone, select}
use noesis_harness_agent_mem.Prelude.{
  ok, err, ltb, eqb, is_some, or_else, Bool-cases, Option-cases, Result, ℕ, String, ◌≡◌, refl, sym,
  ap, ◌∙◌, inl, inr, Bool, true, false, not, none, some, List, [], ◌∷◌, ◌++◌, arith, ◌==◌, eq_iff,
  eq_refl, Option,
}
use noesis_harness_agent_mem.TurnCheckpoint.Recover.{set_status}
use noesis_harness_agent_mem.TurnCheckpoint.{
  Error, Run, Saved, TurnCheckpoint, Store, Status, running, decode, latest, begin_at, of_run,
  has_run, next_turn, commit_at, save, new_record, at_turn, last_row,
}
use noesis_harness_agent_mem.TurnCheckpoint.Chain.{
  Linked, last_of, Linked-append, last_of-append, latest_of-ok,
}

select-append :
    (p : Saved → Bool) (xs ys : List Saved) → select p (xs ++ ys) ≡ select p xs ++ select p ys
unfolding select
select-append p [] ys = refl
select-append p (x ∷ xs) ys = elim (Bool-cases (p x)) [
  | inl e ↦ rw e (ap (λ zs. x ∷ zs) (select-append p xs ys))
  | inr e ↦ rw e (select-append p xs ys)
]

-- the row of another run under an UPDATE
untouched :
    (k j : String) (f : Run → Run) (runs : List Run)
    → (k == j) ≡ false
    → Option.map (updated (has_run k) f) (fetchone (has_run j) runs) ≡ fetchone (has_run j) runs
untouched k j f runs apart = elim (Option-cases (fetchone (has_run j) runs)) [
  | inl free ↦ rw free refl
  | inr (r, found) ↦
      let own = fetchone_sound (has_run j) runs r found in
      let other : has_run k r ≡ false =
        ground (arith, own, apart, eq_iff r.run_id k, eq_iff r.run_id j, eq_iff k j) in
      rw found (rw other refl)
]

module _ (is_object : String → Bool) (sha : String → String) (seal : TurnCheckpoint → String) where
  -- the run's row says where its checkpoints end
  abbrev Agrees : List Saved → Option Run → Type 0
  Agrees rows none = rows ≡ []
  Agrees rows (some run) =
      (run.latest_turn, run.latest_digest) ≡ last_of is_object sha seal none "" rows

  abbrev Good : Store → String → Type 0
  Good s k =
      Linked is_object sha seal none "" (select (of_run k) s.checkpoints)
      × Agrees (select (of_run k) s.checkpoints) (fetchone (has_run k) s.runs)

  -- The checkpoints of each run are a chain, and the run's row says where it ends.
  abbrev pub IsSound : Store → Type 0
  IsSound s = (k : String) → Good s k

  begin-Agrees :
      (rows : List Saved) (o : Option Run) (k j : String)
      → Agrees rows o
      → Agrees rows (
          or_else o (
            fetchone (has_run j) (
              record { run_id = k; status = running; latest_turn = none; latest_digest = "" }
              ∷ [])))
  begin-Agrees rows (some run) k j h = h
  begin-Agrees rows none k j h = elim (Bool-cases (k == j)) [
    | inl own ↦ unfold fetchone in rw own (sym (ap (last_of is_object sha seal none "") h))
    | inr apart ↦ unfold fetchone in rw apart h
  ]

  pub begin_at-IsSound :
      (s : Store) (k : String) (now : ℕ) (o : Option Run)
      → IsSound s
      → IsSound (begin_at is_object sha seal s k now o).1
  begin_at-IsSound s k now (some run) v j = v j
  begin_at-IsSound s k now none v j = (
    (v j).0,
    rw (fetchone-append (has_run j) s.runs _)
        (begin-Agrees (select (of_run j) s.checkpoints) (fetchone (has_run j) s.runs) k j (v j).1),
  )

  status-Agrees :
      (rows : List Saved) (o : Option Run) (k : String) (status : Status)
      → Agrees rows o
      → Agrees rows (Option.map (updated (has_run k) (λ r. record r { status = status })) o)
  status-Agrees rows none k status h = h
  status-Agrees rows (some run) k status h = elim (Bool-cases (has_run k run)) [
    | inl own ↦ rw own h
    | inr apart ↦ rw apart h
  ]

  pub set_status-IsSound :
      (s : Store) (k : String) (status : Status) → IsSound s → IsSound (set_status s k status)
  set_status-IsSound s k status v j = (
    (v j).0,
    rw
        (fetchone-update (has_run j) (has_run k) (λ r. record r { status = status }) s.runs
          (λ r e. refl))
        (status-Agrees (select (of_run j) s.checkpoints) (fetchone (has_run j) s.runs) k status
          (v j).1),
  )

  abbrev set_latest : TurnCheckpoint → ℕ → Run → Run
  set_latest p turn r = record r {
    status = p.status;
    latest_turn = some turn;
    latest_digest = p.state_digest;
  }

  abbrev row_of : String → ℕ → TurnCheckpoint → Saved
  row_of k turn p = record { run_id = k; turn = turn; payload = some p; digest = seal p }

  -- the tables after a checkpoint of the run itself
  saved-own :
      (s : Store) (k : String) (turn : ℕ) (p : TurnCheckpoint) (run : Run)
      → fetchone (has_run k) s.runs ≡ some run
      → turn ≡ next_turn run.latest_turn
      → p.previous_digest ≡ run.latest_digest
      → decode is_object sha seal (row_of k turn p) ≡ ok p
      → Good s k
      → Good
          (record {
            checkpoints = s.checkpoints ++ row_of k turn p ∷ [];
            runs = update (has_run k) (set_latest p turn) s.runs;
          })
          k
  saved-own s k turn p run found at back reads (links, agrees) =
      let rows = select (of_run k) s.checkpoints in
      let here : has_run k run ≡ true = fetchone_sound (has_run k) s.runs run found in
      let stored : select (of_run k) (s.checkpoints ++ row_of k turn p ∷ [])
          ≡ rows ++ row_of k turn p ∷ [] =
        select-append (of_run k) s.checkpoints (row_of k turn p ∷ [])
        ∙ (unfold select in rw (eq_refl k) refl) in
      let updated_run : fetchone (has_run k) (update (has_run k) (set_latest p turn) s.runs)
          ≡ some (set_latest p turn run) =
        fetchone-update (has_run k) (has_run k) (set_latest p turn) s.runs (λ r e. refl)
        ∙ (rw found (rw here refl)) in
      let ends : Agrees rows (some run) = subst (Agrees rows) found agrees in
      rw (stored, updated_run)
        (
          Linked-append is_object sha seal none run.latest_turn "" run.latest_digest rows
              (row_of k turn p) p links (sym ends) at reads back,
          sym (last_of-append is_object sha seal none "" rows (row_of k turn p) p reads),
        )

  saved-other :
      (s : Store) (k j : String) (turn : ℕ) (p : TurnCheckpoint)
      → (k == j) ≡ false
      → Good s j
      → Good
          (record {
            checkpoints = s.checkpoints ++ row_of k turn p ∷ [];
            runs = update (has_run k) (set_latest p turn) s.runs;
          })
          j
  saved-other s k j turn p apart (links, agrees) =
      let stored : select (of_run j) (s.checkpoints ++ row_of k turn p ∷ [])
          ≡ select (of_run j) s.checkpoints =
        select-append (of_run j) s.checkpoints (row_of k turn p ∷ [])
        ∙ (unfold select in rw apart (append-nil (select (of_run j) s.checkpoints))) in
      let same : fetchone (has_run j) (update (has_run k) (set_latest p turn) s.runs)
          ≡ fetchone (has_run j) s.runs =
        fetchone-update (has_run j) (has_run k) (set_latest p turn) s.runs (λ r e. refl)
        ∙ untouched k j (set_latest p turn) s.runs apart in
      rw (stored, same) (links, agrees)

module _ (is_object : String → Bool) (sha : String → String) (seal : TurnCheckpoint → String)
    (reload : String → String) where
  save-IsSound :
      (s : Store) (k : String) (turn : ℕ) (p : TurnCheckpoint) (run : Run)
      → fetchone (has_run k) s.runs ≡ some run
      → turn ≡ next_turn run.latest_turn
      → p.previous_digest ≡ run.latest_digest
      → decode is_object sha seal (row_of is_object sha seal k turn p) ≡ ok p
      → reload p.state ≡ p.state
      → IsSound is_object sha seal s
      → IsSound is_object sha seal (save is_object sha seal reload s k turn p).1
  save-IsSound s k turn p run found at back reads kept v j =
      elim (Bool-cases (is_some (fetchone (at_turn k turn) s.checkpoints))) [
        | inl taken ↦ rw taken (v j)
        | inr free ↦ elim (Bool-cases (k == j)) [
          | inl own ↦
              let same = (eq_iff k j).0 own in
              rw (free, kept)
                (subst
                  (λ x.
                    Good is_object sha seal
                      (record {
                        checkpoints = s.checkpoints ++ row_of is_object sha seal k turn p ∷ [];
                        runs = update (has_run k) (set_latest is_object sha seal p turn) s.runs;
                      })
                      x)
                  same (saved-own is_object sha seal s k turn p run found at back reads (v k)))
          | inr apart ↦ rw (free, kept) (saved-other is_object sha seal s k j turn p apart (v j))
        ]
      ]

  -- the record that `commit_turn` makes is read back
  decode-new :
      (k state output : String) (turn now : ℕ) (status : Status) (current : TurnCheckpoint)
      → is_object state ≡ true
      → decode is_object sha seal (
          row_of is_object sha seal k turn
            (new_record is_object sha seal k turn status state output current now))
        ≡ ok (new_record is_object sha seal k turn status state output current now)
  unfolding decode
  decode-new k state output turn now status current object =
      rw
        (
          eq_refl (seal (new_record is_object sha seal k turn status state output current now)),
          object,
          eq_refl (sha state),
        )
        refl

  pub commit_at-IsSound :
      (s : Store) (k state output : String) (turn now : ℕ) (status : Status)
      (o : Result Error TurnCheckpoint)
      → latest is_object sha seal s k ≡ o
      → is_object state ≡ true
      → reload state ≡ state
      → IsSound is_object sha seal s
      → IsSound is_object sha seal
          (commit_at is_object sha seal reload s k turn state output status now o).1
  commit_at-IsSound s k state output turn now status (err e) found object kept v j = v j
  commit_at-IsSound s k state output turn now status (ok current) found object kept v j =
      elim (Bool-cases (ltb turn (next_turn current.turn))) [
        | inl back ↦ rw back (v j)
        | inr fresh ↦ elim (Bool-cases (not (eqb turn (next_turn current.turn)))) [
          | inl ahead ↦ rw (fresh, ahead) (v j)
          | inr next ↦
              let (run, there, same, digest) =
                latest_of-ok is_object sha seal k (last_row s k) (fetchone (has_run k) s.runs)
                  current (unfold latest in found) in
              let due : turn ≡ next_turn current.turn = ground (arith, next) in
              rw (fresh, next)
                (save-IsSound s k turn
                  (new_record is_object sha seal k turn status state output current now) run there
                  (due ∙ ap next_turn (sym same)) (sym digest)
                  (decode-new k state output turn now status current object) kept v j)
        ]
      ]
