-- ===== src/Nextgen/Audit/Verifying.antt =====
-- What `verify` of noesis_harness/nextgen.py says of a file after `append`, by one writer and by two.
use noesis_harness_agent_mem.Prelude.{
  ok, eqb, Bool-cases, length, length-append, ℕ, suc, ◌+◌, String, ◌≡◌, refl, ap, ◌∙◌, inl, inr,
  true, false, ◌||◌, not, some, List, [], ◌∷◌, ◌++◌, arith, ◌==◌, eq_refl,
}
use noesis_harness_agent_mem.Nextgen.Audit.{
  Event, Line, entry, blank, malformed, sequence_or_link, hash_mismatch, Report, intact, broken,
  unreadable, Reason, verify_from, hash_of, last_seq, last_line, make_event, verify, new_event,
  append, zero_hash, next_seq, write, last_hash,
}

abbrev counted : Report → ℕ
counted (intact n h) = n
counted (broken line r) = 0
counted unreadable = 0

abbrev ended : Report → String
ended (intact n h) = h
ended (broken line r) = ""
ended unreadable = ""

intact_injective : (n m : ℕ) (p h : String) → intact n p ≡ intact m h → (n ≡ m) × (p ≡ h)
intact_injective n m p h v = (ap counted v, ap ended v)

module _ (digest : ℕ → ℕ → String → String → String → String → String) where
  intact_clash : (n m : ℕ) (h : String) (r : Reason) → broken m r ≡ intact n h → ⊥
  intact_clash n m h r e = cc

  -- the tests on an event that is passed
  passed :
      (e : Event) (ls : List Line) (line n m : ℕ) (previous h : String)
      → verify_from digest (entry e ∷ ls) line (n + 1) previous n ≡ intact m h
      → ((not (eqb e.seq (n + 1)) || not (e.prev_hash == previous)) ≡ false)
        × ((not (digest e.seq e.ts e.actor e.event_type e.payload e.prev_hash == e.event_hash))
            ≡ false)
        × (e.seq ≡ n + 1)
        × (verify_from digest ls (line + 1) (n + 1 + 1) e.event_hash (n + 1) ≡ intact m h)
  passed e ls line n m previous h v =
      elim (Bool-cases (not (eqb e.seq (n + 1)) || not (e.prev_hash == previous))) [
        | inl apart ↦
            absurd (intact_clash m line h sequence_or_link (unfold verify_from in rw apart at v))
        | inr linked ↦
            elim (Bool-cases (
              not (digest e.seq e.ts e.actor e.event_type e.payload e.prev_hash == e.event_hash))) [
                | inl other ↦ absurd (
                    intact_clash m line h hash_mismatch
                      (unfold verify_from in rw (linked, other) at v))
                | inr same ↦ (
                  linked,
                  same,
                  ground (arith, linked),
                  unfold verify_from in rw (linked, same) at v,
                )
              ]
      ]

  -- lines that verify, and more after them
  verify_from-append :
      (xs ys : List Line) (line n m : ℕ) (previous h : String)
      → verify_from digest xs line (n + 1) previous n ≡ intact m h
      → verify_from digest (xs ++ ys) line (n + 1) previous n
        ≡ verify_from digest ys (line + length xs) (m + 1) h m
  unfolding verify_from
  verify_from-append [] ys line n m previous h v =
      let (count_same, hash_same) = intact_injective n m previous h v in
      let start : line + 0 ≡ line = omega arith in rw (start, count_same, hash_same) refl
  verify_from-append (blank ∷ xs) ys line n m previous h v =
      let shift : line + suc (length xs) ≡ line + 1 + length xs = omega arith in
      rw shift (verify_from-append xs ys (line + 1) n m previous h v)
  verify_from-append (malformed ∷ xs) ys line n m previous h v = cc
  verify_from-append (entry e ∷ xs) ys line n m previous h v =
      let (linked, honest, same, rest) = passed e xs line n m previous h v in
      let shift : line + suc (length xs) ≡ line + 1 + length xs = omega arith in
      rw (linked, honest, shift) (verify_from-append xs ys (line + 1) (n + 1) m e.event_hash h rest)

  last_seq-verified :
      (xs : List Line) (line n m : ℕ) (previous h : String)
      → verify_from digest xs line (n + 1) previous n ≡ intact m h
      → last_seq n xs ≡ ok m
  unfolding verify_from
  last_seq-verified [] line n m previous h v = ap ok (intact_injective n m previous h v).0
  last_seq-verified (blank ∷ xs) line n m previous h v =
      last_seq-verified xs (line + 1) n m previous h v
  last_seq-verified (malformed ∷ xs) line n m previous h v = cc
  last_seq-verified (entry e ∷ xs) line n m previous h v =
      let (linked, honest, same, rest) = passed e xs line n m previous h v in
      rw same (last_seq-verified xs (line + 1) (n + 1) m e.event_hash h rest)

  last_hash-verified :
      (xs : List Line) (l : Line) (line n m : ℕ) (previous h : String)
      → hash_of l ≡ ok previous
      → verify_from digest xs line (n + 1) previous n ≡ intact m h
      → hash_of (last_line l xs) ≡ ok h
  unfolding verify_from
  last_hash-verified [] l line n m previous h own v =
      own ∙ ap ok (intact_injective n m previous h v).1
  last_hash-verified (blank ∷ xs) l line n m previous h own v =
      last_hash-verified xs l (line + 1) n m previous h own v
  last_hash-verified (malformed ∷ xs) l line n m previous h own v = cc
  last_hash-verified (entry e ∷ xs) l line n m previous h own v =
      let (linked, honest, same, rest) = passed e xs line n m previous h v in
      last_hash-verified xs (entry e) (line + 1) (n + 1) m e.event_hash h refl rest

  -- the event that a writer makes from a file that verifies
  make_event-verified :
      (ls : List Line) (actor event_type payload : String) (now n : ℕ) (h : String)
      → verify digest ls ≡ intact n h
      → make_event digest ls actor event_type (some payload) now
        ≡ ok (new_event digest (n + 1) now actor event_type payload h)
  unfolding make_event next_seq last_hash
  make_event-verified ls actor event_type payload now n h v =
      let seq = last_seq-verified ls 1 0 n zero_hash h (unfold verify in v) in
      let prev = last_hash-verified ls blank 1 0 n zero_hash h refl (unfold verify in v) in
      rw (seq, prev) refl

  -- lines after a file that verifies
  verify-append :
      (ls ys : List Line) (n : ℕ) (h : String)
      → verify digest ls ≡ intact n h
      → verify digest (ls ++ ys) ≡ verify_from digest ys (1 + length ls) (n + 1) h n
  unfolding verify
  verify-append ls ys n h v = verify_from-append ls ys 1 0 n zero_hash h v

  -- one more event that a writer makes
  verify_from-made :
      (ys : List Line) (line n now : ℕ) (actor event_type payload h : String)
      → verify_from digest
          (entry (new_event digest (n + 1) now actor event_type payload h) ∷ ys)
          line
          (n + 1)
          h
          n
        ≡ verify_from digest ys
            (line + 1)
            (n + 1 + 1)
            (digest (n + 1) now actor event_type payload h)
            (n + 1)
  unfolding verify_from
  verify_from-made ys line n now actor event_type payload h =
      let own : eqb (n + 1) (n + 1) ≡ true = ground arith in
      rw (own, eq_refl h, eq_refl (digest (n + 1) now actor event_type payload h)) refl

  written-intact :
      (ls : List Line) (actor event_type payload : String) (now n : ℕ) (h : String)
      → verify digest ls ≡ intact n h
      → verify digest (ls ++ entry (new_event digest (n + 1) now actor event_type payload h) ∷ [])
        ≡ intact (n + 1) (digest (n + 1) now actor event_type payload h)
  written-intact ls actor event_type payload now n h v =
      verify-append ls (entry (new_event digest (n + 1) now actor event_type payload h) ∷ []) n h v
      ∙ verify_from-made [] (1 + length ls) n now actor event_type payload h
      ∙ (unfold verify_from in refl)

  -- an event whose number is taken
  verify_from-stale :
      (line n : ℕ) (e : Event) (h : String)
      → e.seq ≡ n + 1
      → verify_from digest (entry e ∷ []) line (n + 1 + 1) h (n + 1) ≡ broken line sequence_or_link
  unfolding verify_from
  verify_from-stale line n e h taken =
      let other : eqb e.seq (n + 1 + 1) ≡ false = ground (arith, taken) in rw other refl

module _ (digest : ℕ → ℕ → String → String → String → String → String)
    (reload : String → String) where
  -- Where a file verifies, `append` of a payload whose canonical JSON is read back as it was written
  -- does not fail, and the file then verifies with one event more, which ends in the hash of the
  -- new event.
  pub append-intact :
      (ls : List Line) (actor event_type payload : String) (now n : ℕ) (h : String)
      → verify digest ls ≡ intact n h
      → reload payload ≡ payload
      → (e : Event) × ((append digest reload ls actor event_type (some payload) now).0 ≡ ok e)
        × (verify digest (append digest reload ls actor event_type (some payload) now).1
            ≡ intact (n + 1) e.event_hash)
  unfolding append
  append-intact ls actor event_type payload now n h v same =
      let made = make_event-verified digest ls actor event_type payload now n h v in
      let e = new_event digest (n + 1) now actor event_type payload h in
      (e, made, rw made (rw same (written-intact digest ls actor event_type payload now n h v)))

  -- Two writers with a lock each: where both make their event from the file as it is and then both write,
  -- the file no longer verifies, at the line of the second event. Both payloads have a canonical
  -- JSON, and that of the first is read back as it was written.
  pub write_twice-broken :
      (ls : List Line) (actor event_type payload actor' event_type' payload' : String)
      (now now' n : ℕ) (h : String)
      → verify digest ls ≡ intact n h
      → reload payload ≡ payload
      → verify digest (
          write digest reload
            (write digest reload ls (make_event digest ls actor event_type (some payload) now))
            (make_event digest ls actor' event_type' (some payload') now'))
        ≡ broken (length ls + 2) sequence_or_link
  write_twice-broken ls actor event_type payload actor' event_type' payload' now now' n h v same =
      let h1 = digest (n + 1) now actor event_type payload h in
      let e1 = new_event digest (n + 1) now actor event_type payload h in
      let e2 : Event = record (new_event digest (n + 1) now' actor' event_type' payload' h) {
        payload = reload payload';
      } in
      let one = ls ++ entry e1 ∷ [] in
      let made = make_event-verified digest ls actor event_type payload now n h v in
      let made' = make_event-verified digest ls actor' event_type' payload' now' n h v in
      let at : 1 + length one ≡ length ls + 2 = omega (arith, length-append ls (entry e1 ∷ [])) in
      rw (made, made', same)
        (verify-append digest one (entry e2 ∷ []) (n + 1) h1
            (written-intact digest ls actor event_type payload now n h v)
          ∙ verify_from-stale digest (1 + length one) n e2 h1 refl
          ∙ ap (λ k. broken k sequence_or_link) at)
