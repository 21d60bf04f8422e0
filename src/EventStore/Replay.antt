-- ===== src/EventStore/Replay.antt =====
-- The store of noesis_harness/event_store.py is a replay of its file.
use mathlib.Core.Path.{subst}
use noesis_harness_agent_mem.Prelude.{
  ok, is_some, Bool-cases, contains, ok_injective, ok-ne-err, String, ◌≡◌, refl, sym, ap, inl, inr,
  Bool, true, false, ◌||◌, none, some, List, [], ◌∷◌, ◌++◌, arith, ◌==◌, eq_iff,
}
use noesis_harness_agent_mem.Dict.{lookup, lookup-insert}
use noesis_harness_agent_mem.EventStore.{
  Event, Line, entry, blank, malformed, scalar, LogFile, corrupt, conflict, EventStore,
  read_records, differs, note, load_events,
}

-- a file that is read to its end and needs no repair
pub record IsClean (ls : List Line) : Type 0 where
  pub reads : (read_records ls none).fails ≡ false
  pub whole : (read_records ls none).file.lines ≡ ls
  pub ended : (read_records ls none).file.rest ≡ none

abbrev tail : List Line → List Line
tail [] = []
tail (l ∷ ls) = ls

IsClean-tail : (x : Event) (ls : List Line) → IsClean (entry x ∷ ls) → IsClean ls
unfolding read_records
IsClean-tail x ls c = record { reads = c.reads; whole = ap tail c.whole; ended = c.ended }

IsClean-tail_blank : (ls : List Line) → IsClean (blank ∷ ls) → IsClean ls
unfolding read_records
IsClean-tail_blank ls c = record { reads = c.reads; whole = ap tail c.whole; ended = c.ended }

bool_clash : true ≡ false → ⊥
bool_clash e = cc

nil_clash : (ls : List Line) → [] ≡ malformed ∷ ls → ⊥
nil_clash ls e = cc

malformed_dirty : (ls : List Line) → IsClean (malformed ∷ ls) → ⊥
unfolding read_records
malformed_dirty [] c = nil_clash [] c.whole
malformed_dirty (l ∷ ls) c = bool_clash c.reads

module _ (e : Event) where
  pub read-write :
      (ls : List Line)
      → IsClean ls
      → read_records (ls ++ entry e ∷ []) none ≡ record {
        records = (read_records ls none).records ++ e ∷ [];
        fails = false;
        file = record { lines = ls ++ entry e ∷ []; rest = none };
      }
  unfolding read_records
  read-write [] c = refl
  read-write (entry x ∷ ls) c = let ih = read-write ls (IsClean-tail x ls c) in rw ih refl
  read-write (blank ∷ ls) c = let ih = read-write ls (IsClean-tail_blank ls c) in rw ih refl
  read-write (malformed ∷ ls) c = absurd (malformed_dirty ls c)
  read-write (scalar ∷ ls) c = absurd (bool_clash c.reads)

-- a torn line at the end is dropped
pub read-torn :
    (ls : List Line)
    → IsClean ls
    → read_records ls (some malformed) ≡ record {
      records = (read_records ls none).records;
      fails = false;
      file = record { lines = ls; rest = none };
    }
unfolding read_records
read-torn [] c = refl
read-torn (entry x ∷ ls) c = let ih = read-torn ls (IsClean-tail x ls c) in rw ih refl
read-torn (blank ∷ ls) c = let ih = read-torn ls (IsClean-tail_blank ls c) in rw ih refl
read-torn (malformed ∷ ls) c = absurd (malformed_dirty ls c)
read-torn (scalar ∷ ls) c = absurd (bool_clash c.reads)

-- an event without its newline is read, and left as it is
pub read-unterminated :
    (e : Event) (ls : List Line)
    → IsClean ls
    → (read_records ls (some (entry e))).file ≡ record { lines = ls; rest = some (entry e) }
unfolding read_records
read-unterminated e [] c = refl
read-unterminated e (entry x ∷ ls) c =
    let ih = read-unterminated e ls (IsClean-tail x ls c) in rw ih refl
read-unterminated e (blank ∷ ls) c =
    let ih = read-unterminated e ls (IsClean-tail_blank ls c) in rw ih refl
read-unterminated e (malformed ∷ ls) c = absurd (malformed_dirty ls c)
read-unterminated e (scalar ∷ ls) c = absurd (bool_clash c.reads)

-- so is one that ends in a newline
pub read-malformed :
    (ls : List Line)
    → IsClean ls
    → read_records (ls ++ malformed ∷ []) none ≡ record {
      records = (read_records ls none).records;
      fails = false;
      file = record { lines = ls; rest = none };
    }
unfolding read_records
read-malformed [] c = refl
read-malformed (entry x ∷ ls) c = let ih = read-malformed ls (IsClean-tail x ls c) in rw ih refl
read-malformed (blank ∷ ls) c = let ih = read-malformed ls (IsClean-tail_blank ls c) in rw ih refl
read-malformed (malformed ∷ ls) c = absurd (malformed_dirty ls c)
read-malformed (scalar ∷ ls) c = absurd (bool_clash c.reads)

module _ (fingerprint : String → String → String) where
  pub load_events-file :
      (s t : EventStore) (es : List Event) (fails : Bool)
      → load_events fingerprint s es fails ≡ ok t
      → (fails ≡ false) × (t.file ≡ s.file)
  unfolding load_events
  load_events-file s t [] true done = absurd (ok-ne-err t corrupt (sym done))
  load_events-file s t [] false done =
      (refl, ap (λ (x : EventStore). x.file) (sym (ok_injective s t done)))
  load_events-file s t (e ∷ es) fails done =
      elim (Bool-cases
        (differs (lookup e.event_id s.fingerprints) (fingerprint e.type e.payload))) [
          | inl clash ↦ absurd (ok-ne-err t conflict (sym (rw clash at done)))
          | inr fine ↦ load_events-file (note fingerprint s e) t es fails (rw fine at done)
        ]

  -- the file does not matter to the loop
  pub load_events-elsewhere :
      (s t : EventStore) (es : List Event) (fails : Bool) (file : LogFile)
      → load_events fingerprint s es fails ≡ ok t
      → load_events fingerprint (record s { file = file }) es fails ≡ ok (record t { file = file })
  unfolding load_events
  load_events-elsewhere s t [] true file done = absurd (ok-ne-err t corrupt (sym done))
  load_events-elsewhere s t [] false file done =
      ap (λ (x : EventStore). ok (record x { file = file })) (ok_injective s t done)
  load_events-elsewhere s t (e ∷ es) fails file done =
      elim (Bool-cases
        (differs (lookup e.event_id s.fingerprints) (fingerprint e.type e.payload))) [
          | inl clash ↦ absurd (ok-ne-err t conflict (sym (rw clash at done)))
          | inr fine ↦
              rw fine
                (load_events-elsewhere (note fingerprint s e) t es fails file (rw fine at done))
        ]

  -- one more event at the end
  pub load_events-append :
      (s t : EventStore) (es : List Event) (e : Event)
      → load_events fingerprint s es false ≡ ok t
      → differs (lookup e.event_id t.fingerprints) (fingerprint e.type e.payload) ≡ false
      → load_events fingerprint s (es ++ e ∷ []) false ≡ ok (note fingerprint t e)
  unfolding load_events
  load_events-append s t [] e done fine =
      subst (λ x. load_events fingerprint x (e ∷ []) false ≡ ok (note fingerprint t e))
        (sym (ok_injective s t done)) (rw fine refl)
  load_events-append s t (x ∷ es) e done fine =
      elim (Bool-cases
        (differs (lookup x.event_id s.fingerprints) (fingerprint x.type x.payload))) [
          | inl clash ↦ absurd (ok-ne-err t conflict (sym (rw clash at done)))
          | inr same ↦
              rw same (load_events-append (note fingerprint s x) t es e (rw same at done) fine)
        ]

  -- `seen` is the set of the keys of `fingerprints`
  abbrev pub Agrees : EventStore → Type 0
  Agrees s = (k : String) → contains s.seen k ≡ is_some (lookup k s.fingerprints)

  contains-append :
      (xs : List String) (x k : String) → contains (xs ++ x ∷ []) k ≡ (contains xs k || (x == k))
  contains-append [] x k = ground arith
  contains-append (y ∷ ys) x k = ground (arith, contains-append ys x k)

  note-Agrees : (s : EventStore) (e : Event) → Agrees s → Agrees (note fingerprint s e)
  note-Agrees s e h k = ground (
    arith,
    h k,
    h e.event_id,
    eq_iff e.event_id k,
    contains-append s.seen e.event_id k,
    lookup-insert e.event_id k (fingerprint e.type e.payload) s.fingerprints,
  )

  pub load_events-Agrees :
      (s t : EventStore) (es : List Event) (fails : Bool)
      → Agrees s
      → load_events fingerprint s es fails ≡ ok t
      → Agrees t
  unfolding load_events
  load_events-Agrees s t [] true h done = absurd (ok-ne-err t corrupt (sym done))
  load_events-Agrees s t [] false h done = subst Agrees (ok_injective s t done) h
  load_events-Agrees s t (e ∷ es) fails h done =
      elim (Bool-cases
        (differs (lookup e.event_id s.fingerprints) (fingerprint e.type e.payload))) [
          | inl clash ↦ absurd (ok-ne-err t conflict (sym (rw clash at done)))
          | inr fine ↦
              load_events-Agrees (note fingerprint s e) t es fails (note-Agrees s e h)
                (rw fine at done)
        ]
