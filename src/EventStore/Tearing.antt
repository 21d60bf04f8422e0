-- ===== src/EventStore/Tearing.antt =====
-- Opening the file of noesis_harness/event_store.py again: after appends, and after writes that
-- were cut off.
use mathlib.Core.Path.{subst}
use noesis_harness_agent_mem.Prelude.{
  ok, is_some, Bool-cases, Option-cases, contains, suc, max, String, ◌≡◌, refl, sym, ap, ◌∙◌, inl,
  inr, true, false, Option, none, some, [], ◌∷◌, ◌++◌, arith,
}
use noesis_harness_agent_mem.Dict.{lookup, insert}
use noesis_harness_agent_mem.EventStore.{
  Event, Line, entry, malformed, LogFile, EventStore, read_records, differs, note, load_events,
  blank_store, init, write, identity, append,
}
use noesis_harness_agent_mem.EventStore.Replay.{
  IsClean, read-write, read-torn, read-malformed, load_events-file, load_events-elsewhere,
  load_events-append, load_events-Agrees, Agrees, read-unterminated,
}

module _ (fingerprint : String → String → String) where
  -- The store is what the constructor makes of its file, and the file ends in a newline.
  pub record IsOpened (s : EventStore) : Type 0 where
    pub ended : s.file.rest ≡ none
    pub opened : init fingerprint s.file ≡ ok s

  loaded :
      (s : EventStore)
      → IsOpened s
      → load_events fingerprint
          (blank_store (read_records s.file.lines none).file)
          (read_records s.file.lines none).records
          (read_records s.file.lines none).fails
        ≡ ok s
  loaded s v =
      subst
        (λ o.
          load_events fingerprint (blank_store (read_records s.file.lines o).file)
            (read_records s.file.lines o).records (read_records s.file.lines o).fails
          ≡ ok s)
        v.ended (unfold init in v.opened)

  clean : (s : EventStore) → IsOpened s → IsClean s.file.lines
  clean s v =
      let (reads, same) =
        load_events-file fingerprint (blank_store (read_records s.file.lines none).file) s _ _
          (loaded s v) in
      record {
        reads = reads;
        whole = sym (ap (λ (f : LogFile). f.lines) same);
        ended = sym (ap (λ (f : LogFile). f.rest) same) ∙ v.ended;
      }

  replayed :
      (s : EventStore) (file : LogFile)
      → IsOpened s
      → load_events fingerprint (blank_store file) (read_records s.file.lines none).records false
        ≡ ok (record s { file = file })
  replayed s file v =
      let reads = (clean s v).reads in
      load_events-elsewhere fingerprint (blank_store (read_records s.file.lines none).file) s _
        false file
        (subst
          (λ b.
            load_events fingerprint (blank_store (read_records s.file.lines none).file)
              (read_records s.file.lines none).records b
            ≡ ok s)
          reads (loaded s v))

  agrees : (s : EventStore) → IsOpened s → Agrees fingerprint s
  agrees s v =
      load_events-Agrees fingerprint (blank_store (read_records s.file.lines none).file) s _ _
        (λ k. unfold lookup in refl) (loaded s v)

  ended_file : (s : EventStore) → IsOpened s → record { lines = s.file.lines; rest = none } ≡ s.file
  ended_file s v =
      let at : Option Line → LogFile = λ r. record { lines = s.file.lines; rest = r } in
      ap at (sym v.ended)

  -- a write that is cut off
  unfoldable pub torn : LogFile → LogFile
  torn file = record { lines = file.lines; rest = some malformed }

  -- For a store that is what the constructor makes of its file, which ends in a newline: a crash in
  -- the middle of the next write loses that event alone. Opening the file gives back the store
  -- before the append, and repairs the file.
  pub init-torn : (s : EventStore) → IsOpened s → init fingerprint (torn s.file) ≡ ok s
  unfolding init torn
  init-torn s v =
      let read = read-torn s.file.lines (clean s v) in
      rw read (
        replayed s (record { lines = s.file.lines; rest = none }) v
        ∙ ap (λ (f : LogFile). ok (record s { file = f })) (ended_file s v))

  clash : false ≡ true → ⊥
  clash e = cc

  -- what is not seen has no fingerprint
  unknown :
      (s : EventStore) (k f : String)
      → IsOpened s
      → contains s.seen k ≡ false
      → differs (lookup k s.fingerprints) f ≡ false
  unknown s k f v fresh = elim (Option-cases (lookup k s.fingerprints)) [
    | inl none_there ↦ rw none_there refl
    | inr (x, there) ↦ absurd (clash (sym fresh ∙ agrees s v k ∙ ap is_some there))
  ]

  -- the store after one more event, opened on another file
  noted :
      (s : EventStore) (file : LogFile) (e : Event)
      → contains s.seen e.event_id ≡ false
      → e.seq ≡ suc s.seq
      → note fingerprint (record s { file = file }) e ≡ record {
        file = file;
        seen = s.seen ++ e.event_id ∷ [];
        fingerprints = insert e.event_id (fingerprint e.type e.payload) s.fingerprints;
        seq = suc s.seq;
      }
  noted s file e fresh next =
      let top : max s.seq e.seq ≡ suc s.seq = ground (arith, next) in rw fresh (rw top refl)

  -- a write that is cut off before its newline
  unfoldable pub unterminated : LogFile → Event → LogFile
  unterminated file e = record { lines = file.lines; rest = some (entry e) }

  unterminated-file :
      (s s' : EventStore) (e : Event)
      → IsOpened s
      → init fingerprint (unterminated s.file e) ≡ ok s'
      → s'.file ≡ record { lines = s.file.lines; rest = some (entry e) }
  unfolding init unterminated
  unterminated-file s s' e v opened =
      (load_events-file fingerprint (blank_store (read_records s.file.lines (some (entry e))).file)
        s' _ _ opened).1
      ∙ read-unterminated e s.file.lines (clean s v)

module _ (fingerprint : String → String → String) (reload : String → String) where
  new_event : EventStore → String → String → String → Event
  new_event s type payload event_id = record {
    event_id = identity fingerprint type payload event_id;
    type = type;
    payload = payload;
    seq = suc s.seq;
  }

  append-written :
      (s : EventStore) (type payload event_id : String)
      → reload payload ≡ payload
      → IsOpened fingerprint s
      → contains s.seen (identity fingerprint type payload event_id) ≡ false
      → init fingerprint (append fingerprint reload s type payload event_id).1.file
        ≡ ok (append fingerprint reload s type payload event_id).1
  unfolding append init new_event
  append-written s type payload event_id kept v fresh =
      let e = new_event s type payload event_id in
      let file : LogFile = record { lines = s.file.lines ++ entry e ∷ []; rest = none } in
      let read = read-write e s.file.lines (clean fingerprint s v) in
      let old =
        load_events-append fingerprint (blank_store file) (record s { file = file })
          (read_records s.file.lines none).records e (replayed fingerprint s file v)
          (unknown fingerprint s e.event_id (fingerprint type payload) v fresh) in
      rw fresh
        (rw v.ended (rw kept (rw read (old ∙ ap ok (noted fingerprint s file e fresh refl)))))

  -- The file says it all: for a store that is what the constructor makes of its file, which ends in
  -- a newline, it is again so after an `append`, of a new event, of one that is there already or of
  -- one that conflicts, where the canonical text of the payload is read back as it was written.
  pub append-IsOpened :
      (s : EventStore) (type payload event_id : String)
      → reload payload ≡ payload
      → IsOpened fingerprint s
      → IsOpened fingerprint (append fingerprint reload s type payload event_id).1
  append-IsOpened s type payload event_id kept v =
      elim (Bool-cases (contains s.seen (identity fingerprint type payload event_id))) [
        | inl there ↦ unfold append in rw there v
        | inr fresh ↦ record {
          ended = unfold append in rw fresh refl;
          opened = append-written s type payload event_id kept v fresh;
        }
      ]

  -- For such a store, a crash that loses only the newline of the next event `e` is not repaired: if
  -- the file then opens, as `s'`, the next new event goes on the same line, and when the file is
  -- opened after that, both are gone: the store is the one before `e`.
  pub unterminated-loses_both :
      (s s' : EventStore) (e : Event) (type payload event_id : String)
      → IsOpened fingerprint s
      → init fingerprint (unterminated fingerprint s.file e) ≡ ok s'
      → contains s'.seen (identity fingerprint type payload event_id) ≡ false
      → init fingerprint (append fingerprint reload s' type payload event_id).1.file ≡ ok s
  unterminated-loses_both s s' e type payload event_id v opened fresh =
      let file = unterminated-file fingerprint s s' e v opened in
      let read = read-malformed s.file.lines (clean fingerprint s v) in
      let joined : (append fingerprint reload s' type payload event_id).1.file
          ≡ record { lines = s.file.lines ++ malformed ∷ []; rest = none } =
        unfold append in
        rw fresh (
          ap
            (λ (f : LogFile). write f (record {
              event_id = identity fingerprint type payload event_id;
              type = type;
              payload = reload payload;
              seq = suc s'.seq;
            }))
            file) in
      ap (init fingerprint) joined
      ∙ (unfold init in
          rw read (
            replayed fingerprint s (record { lines = s.file.lines; rest = none }) v
            ∙ ap (λ (f : LogFile). ok (record s { file = f })) (ended_file fingerprint s v)))
