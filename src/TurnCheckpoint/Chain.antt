-- ===== src/TurnCheckpoint/Chain.antt =====
-- Rows of noesis_harness/turn_checkpoint.py that form a chain: one for each turn, each with the
-- state digest of the one before it.
use noesis_harness_agent_mem.Table.{insert_by, order_by}
use noesis_harness_agent_mem.Prelude.{
  ok, err, leb, if◌then◌else◌, Bool-cases, Result, ok_injective, ok-ne-err, ℕ, String, ◌≡◌, refl,
  sym, ap, ◌∙◌, inl, inr, Bool, true, ◌||◌, not, Option, none, some, List, [], ◌∷◌, ◌++◌, arith,
  ◌==◌, eq_iff, eq_refl,
}
use noesis_harness_agent_mem.TurnCheckpoint.Verify.{verify_rows, digest_of}
use noesis_harness_agent_mem.TurnCheckpoint.{
  Error, Run, Saved, TurnCheckpoint, checkpoint_projection_mismatch, run_not_found, decode,
  next_turn, latest_of, same_turn, blank, compared,
}

same_turn_eq : (a b : Option ℕ) → same_turn a b ≡ true → a ≡ b
same_turn_eq none none e = refl
same_turn_eq none (some n) e = cc
same_turn_eq (some m) none e = cc
same_turn_eq (some m) (some n) e = ap some (ground (arith, e))

-- the test of a run's row
projected :
    (run : Run) (t : Option ℕ) (d : String) (p found : TurnCheckpoint)
    → (if not (same_turn run.latest_turn t) || not (run.latest_digest == d)
        then err checkpoint_projection_mismatch
        else ok p)
      ≡ ok found
    → (run.latest_turn ≡ t) × (run.latest_digest ≡ d) × (p ≡ found)
projected run t d p found e =
    elim (Bool-cases (not (same_turn run.latest_turn t) || not (run.latest_digest == d))) [
      | inl bad ↦ absurd (ok-ne-err found checkpoint_projection_mismatch (sym (rw bad at e)))
      | inr fine ↦ (
        same_turn_eq run.latest_turn t (ground (arith, fine)),
        (eq_iff run.latest_digest d).0 (ground (arith, fine)),
        ok_injective p found (rw fine at e),
      )
    ]

compared-ok :
    (run : Run) (o : Result Error TurnCheckpoint) (found : TurnCheckpoint)
    → compared run o ≡ ok found
    → (run.latest_turn ≡ found.turn) × (run.latest_digest ≡ found.state_digest)
compared-ok run (err x) found e = absurd (ok-ne-err found x (sym e))
compared-ok run (ok p) found e =
    let (turn, digest, same) = projected run p.turn p.state_digest p found e in
    (
      turn ∙ ap (λ (x : TurnCheckpoint). x.turn) same,
      digest ∙ ap (λ (x : TurnCheckpoint). x.state_digest) same,
    )

module _ (is_object : String → Bool) (sha : String → String) (seal : TurnCheckpoint → String) where
  -- the rows go on from turn `t`, whose state digest is `d`
  abbrev pub Linked : Option ℕ → String → List Saved → Type 0
  Linked t d [] = Unit
  Linked t d (r ∷ rs) =
      (p : TurnCheckpoint) × (r.turn ≡ next_turn t)
      × (decode is_object sha seal r ≡ ok p)
      × (p.previous_digest ≡ d)
      × Linked (some r.turn) p.state_digest rs

  -- where they end
  abbrev pub last_of : Option ℕ → String → List Saved → Option ℕ × String
  last_of t d [] = (t, d)
  last_of t d (r ∷ rs) = last_of (some r.turn) (digest_of (decode is_object sha seal r)) rs

  pub Linked-append :
      (t t' : Option ℕ) (d d' : String) (rows : List Saved) (row : Saved) (p : TurnCheckpoint)
      → Linked t d rows
      → last_of t d rows ≡ (t', d')
      → row.turn ≡ next_turn t'
      → decode is_object sha seal row ≡ ok p
      → p.previous_digest ≡ d'
      → Linked t d (rows ++ row ∷ [])
  Linked-append t t' d d' [] row p h ends turn reads back = (
    p,
    turn ∙ ap next_turn (sym (ap (λ x. x.0) ends)),
    reads,
    back ∙ sym (ap (λ x. x.1) ends),
    tt,
  )
  Linked-append t t' d d' (r ∷ rs) row p (q, at, own, before, h) ends turn reads back =
      let shape : last_of (some r.turn) q.state_digest rs ≡ (t', d') =
        ap (λ o. last_of (some r.turn) (digest_of o) rs) (sym own) ∙ ends in
      (
        q,
        at,
        own,
        before,
        Linked-append (some r.turn) t' q.state_digest d' rs row p h shape turn reads back,
      )

  pub last_of-append :
      (t : Option ℕ) (d : String) (rows : List Saved) (row : Saved) (p : TurnCheckpoint)
      → decode is_object sha seal row ≡ ok p
      → last_of t d (rows ++ row ∷ []) ≡ (some row.turn, p.state_digest)
  last_of-append t d [] row p reads = ap (λ o. (some row.turn, digest_of o)) reads
  last_of-append t d (r ∷ rs) row p reads =
      last_of-append (some r.turn) (digest_of (decode is_object sha seal r)) rs row p reads

  -- a chain is in the order of its turns
  insert_by-first :
      (r : Saved) (d : String) (rs : List Saved)
      → Linked (some r.turn) d rs
      → insert_by (λ a b. leb a.turn b.turn) r rs ≡ r ∷ rs
  unfolding insert_by
  insert_by-first r d [] h = refl
  insert_by-first r d (x ∷ xs) (p, at, own, back, rest) =
      let before : leb r.turn x.turn ≡ true = ground (arith, at) in rw before refl

  pub order_by-Linked :
      (t : Option ℕ) (d : String) (rows : List Saved)
      → Linked t d rows
      → order_by (λ a b. leb a.turn b.turn) rows ≡ rows
  unfolding order_by
  order_by-Linked t d [] h = refl
  order_by-Linked t d (r ∷ rs) (p, at, own, before, h) =
      ap (insert_by (λ a b. leb a.turn b.turn) r)
        (order_by-Linked (some r.turn) p.state_digest rs h)
      ∙ insert_by-first r p.state_digest rs h

  pub verify_rows-Linked :
      (t : Option ℕ) (d : String) (rows : List Saved)
      → Linked t d rows
      → verify_rows is_object sha seal d rows ≡ ok true
  unfolding verify_rows
  verify_rows-Linked t d [] h = refl
  verify_rows-Linked t d (r ∷ rs) (p, at, own, before, h) =
      rw own (rw before (rw (eq_refl d) (verify_rows-Linked (some r.turn) p.state_digest rs h)))

  -- `latest` stands behind what the run's row says
  pub latest_of-ok :
      (k : String) (row : Option Saved) (o : Option Run) (found : TurnCheckpoint)
      → latest_of is_object sha seal k row o ≡ ok found
      → (run : Run) × (o ≡ some run)
        × (run.latest_turn ≡ found.turn)
        × (run.latest_digest ≡ found.state_digest)
  latest_of-ok k row none found e = absurd (ok-ne-err found run_not_found (sym e))
  latest_of-ok k none (some run) found e =
      let (turn, digest, same) = projected run none "" (blank k run.status 0) found e in
      (
        run,
        refl,
        turn ∙ ap (λ (x : TurnCheckpoint). x.turn) same,
        digest ∙ ap (λ (x : TurnCheckpoint). x.state_digest) same,
      )
  latest_of-ok k (some row) (some run) found e =
      let (turn, digest) = compared-ok run (decode is_object sha seal row) found e in
      (run, refl, turn, digest)
