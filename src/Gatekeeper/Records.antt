-- ===== src/Gatekeeper/Records.antt =====
-- The record at an identifier after the calls of noesis_harness/gatekeeper.py: what one of them can
-- change.

use noesis_harness_agent_mem.Dict.{lookup-insert}
use noesis_harness_agent_mem.Gatekeeper.{
  replay, Status, get, transition_at, Record, state_of, State, Event, apply, is_allowed,
  gate_transition, move, gate_prepared, lookup, new_record, CapabilityRequest, Error, prepare,
  prepare_at, prepare_unless, append_prepared, transition, refusal, find_prepared,
}
use noesis_harness_agent_mem.Prelude.{
  if◌then◌else◌, Bool-cases, ℕ, String, ◌≡◌, refl, sym, ap, ◌∙◌, inl, inr, Bool, true, Option, none,
  some, List, [], ◌∷◌, ◌++◌, ◌==◌, eq_iff,
}

replay-append :
    (state : State) (es : List Event) (e : Event)
    → replay state (es ++ e ∷ []) ≡ apply (replay state es) e
unfolding replay
replay-append state [] e = refl
replay-append state (x ∷ es) e = replay-append (apply state x) es e

-- the record at a key after one more event
get-prepared :
    (events : List Event) (k rid : String) (r : Record)
    → get (events ++ gate_prepared rid r ∷ []) k
      ≡ (if r.request_id == k then some r else get events k)
unfolding get state_of apply
get-prepared events k rid r =
    ap (lookup k) (replay-append [] events (gate_prepared rid r))
    ∙ lookup-insert r.request_id k r (replay [] events)

get-moved :
    (events : List Event) (k j reason : String) (status : Status) (now : ℕ) (r : Record)
    → get events j ≡ some r
    → get (events ++ gate_transition j status reason now ∷ []) k
      ≡ (if j == k then some (move status reason now r) else get events k)
unfolding get state_of apply
get-moved events k j reason status now r got =
    ap (lookup k) (replay-append [] events (gate_transition j status reason now))
    ∙ (rw got (lookup-insert j k (move status reason now r) (replay [] events)))

module _ (safe : String → String) (k : String) where
  -- a predicate on the record at the key is kept by a transition that keeps it
  transition_at-kept :
      (P : Option Record → Type 0) (events : List Event) (j reason : String) (status : Status)
      (now : ℕ) (o : Option Record)
      → get events j ≡ o
      → safe j ≡ j
      → ((r : Record)
          → j ≡ k
          → get events k ≡ some r
          → is_allowed r.status status ≡ true
          → P (some (move status (safe reason) now r)))
      → P (get events k)
      → P (get (transition_at safe events j status reason now o).1 k)
  unfolding transition_at
  transition_at-kept P events j reason status now none got plain fine h = h
  transition_at-kept P events j reason status now (some r) got plain fine h =
      elim (Bool-cases (is_allowed r.status status)) [
        | inr e ↦ rw e h
        | inl e ↦ elim (Bool-cases (j == k)) [
          | inl here ↦
              let same = (eq_iff j k).0 here in
              rw (e, plain, get-moved events k j (safe reason) status now r got, here)
                (fine r same (ap (get events) (sym same) ∙ got) e)
          | inr apart ↦ rw (e, plain, get-moved events k j (safe reason) status now r got, apart) h
        ]
      ]

  pub transition-kept :
      (P : Option Record → Type 0) (events : List Event) (j reason : String) (status : Status)
      (now : ℕ)
      → safe j ≡ j
      → ((r : Record)
          → j ≡ k
          → get events k ≡ some r
          → is_allowed r.status status ≡ true
          → P (some (move status (safe reason) now r)))
      → P (get events k)
      → P (get (transition safe events j status reason now).1 k)
  transition-kept P events j reason status now plain fine h =
      unfold transition in
      transition_at-kept P events j reason status now (lookup j (state_of events))
        (unfold get in refl) plain fine h

  module _ (same : Record → Record → Bool) where
    append_prepared-kept :
        (P : Option Record → Type 0) (events : List Event) (q : CapabilityRequest) (new : Record)
        (o : Option Record)
        → (new.request_id ≡ k → P (some new))
        → P (get events k)
        → P (get (append_prepared same events q new o).1 k)
    unfolding append_prepared
    append_prepared-kept P events q new (some old) fine h = h
    append_prepared-kept P events q new none fine h = elim (Bool-cases (new.request_id == k)) [
      | inl here ↦
          rw (get-prepared events k q.rid new, here) (fine ((eq_iff new.request_id k).0 here))
      | inr apart ↦ rw (get-prepared events k q.rid new, apart) h
    ]

    prepare_unless-kept :
        (P : Option Record → Type 0) (events : List Event) (q : CapabilityRequest) (now : ℕ)
        (e : Option Error) (o : Option Record)
        → get events q.rid ≡ o
        → safe q.rid ≡ q.rid
        → (q.rid ≡ k → get events k ≡ none → P (some (new_record safe q now)))
        → P (get events k)
        → P (get (prepare_unless safe same events q now e).1 k)
    unfolding prepare_unless prepare_at get
    prepare_unless-kept P events q now (some e) o got plain fine h = h
    prepare_unless-kept P events q now none (some r) got plain fine h = rw got h
    prepare_unless-kept P events q now none none got plain fine h = rw got (
        append_prepared-kept P events q (new_record safe q now) (find_prepared q.rid events)
          (λ here. fine (sym plain ∙ here) (ap (get events) (sym (sym plain ∙ here)) ∙ got)) h)

    module _ (findings : CapabilityRequest → Bool) where
      pub prepare-kept :
          (P : Option Record → Type 0) (events : List Event) (q : CapabilityRequest) (now : ℕ)
          → safe q.rid ≡ q.rid
          → (q.rid ≡ k → get events k ≡ none → P (some (new_record safe q now)))
          → P (get events k)
          → P (get (prepare safe same findings events q now).1 k)
      unfolding prepare
      prepare-kept P events q now plain fine h =
          prepare_unless-kept P events q now (refusal findings q) (get events q.rid) refl plain fine
            h
