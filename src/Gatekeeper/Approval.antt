-- ===== src/Gatekeeper/Approval.antt =====
-- What a request of noesis_harness/gatekeeper.py can become without an approval, and after its end.
use noesis_harness_agent_mem.Gatekeeper.Records.{prepare-kept, transition-kept}
use mathlib.Core.Path.{subst}
use noesis_harness_agent_mem.Gatekeeper.{
  Call, Status, get, Record, needs_approval, approve_call, Event, is_allowed, run, step, approve,
  commit, reject, waiting_approval, prepared, approved, rejected, committed, prepare_call,
  commit_call, reject_call, CapabilityRequest,
}
use noesis_harness_agent_mem.Prelude.{
  All, ℕ, String, ◌≡◌, refl, sym, ap, ◌∙◌, ◌≢◌, Bool, true, false, Option, none, some, List, [],
  ◌∷◌,
}

-- no request at the key that needs an approval is ready to be committed
abbrev pub is_ready : Status → Bool
is_ready waiting_approval = false
is_ready prepared = true
is_ready approved = true
is_ready rejected = false
is_ready committed = true

abbrev pub Held : Option Record → Type 0
Held none = Unit
Held (some r) = needs_approval r.capability r.side_effect ≡ true → is_ready r.status ≡ false

-- the identifier that a call names
abbrev pub id_of : Call → String
id_of (prepare_call q) = q.rid
id_of (approve_call k) = k
id_of (commit_call k) = k
id_of (reject_call k reason) = k

-- The redaction leaves the identifiers of the calls alone.
abbrev pub Plain : (String → String) → List (ℕ × Call) → Type 0
Plain safe = All (λ c. safe (id_of c.1) ≡ id_of c.1)

-- The calls hold no approval of the request.
abbrev pub NoApproval : String → List (ℕ × Call) → Type 0
NoApproval k = All (λ c. (t : String) → c.1 ≡ approve_call t → t ≢ k)

-- an allowed transition to committed starts where the record can be committed
blocked : (s : Status) → is_allowed s committed ≡ true → is_ready s ≡ false → ⊥
blocked waiting_approval e f = cc
blocked prepared e f = cc
blocked approved e f = cc
blocked rejected e f = cc
blocked committed e f = cc

-- A record that is rejected or committed.
abbrev pub is_final : Status → Bool
is_final rejected = true
is_final committed = true
is_final s = false

abbrev status_of : Record → Option Record → Status
status_of x none = x.status
status_of x (some r) = r.status

abbrev pub Ended : Record → Type 0
Ended r = is_final r.status ≡ true

-- no transition leads on from a final status
final_stuck : (from to : Status) → is_final from ≡ true → is_allowed from to ≡ true → ⊥
final_stuck waiting_approval to f e = cc
final_stuck prepared to f e = cc
final_stuck approved to f e = cc
final_stuck rejected to f e = cc
final_stuck committed to f e = cc

stuck :
    (x r : Record) (status : Status)
    → Ended x
    → ◌≡◌ {A = Option Record} (some x) (some r)
    → is_allowed r.status status ≡ true
    → ⊥
stuck x r status ended same e =
    final_stuck x.status status ended (ap (λ o. is_allowed (status_of x o) status) same ∙ e)

some_clash : (x : Record) → ◌≡◌ {A = Option Record} (some x) none → ⊥
some_clash x e = cc

module _ (safe : String → String) (k : String) (same : Record → Record → Bool)
    (findings : CapabilityRequest → Bool) where
  step-Held :
      (events : List Event) (now : ℕ) (c : Call)
      → safe (id_of c) ≡ id_of c
      → ((t : String) → c ≡ approve_call t → t ≢ k)
      → Held (get events k)
      → Held (get (step safe same findings events now c) k)
  unfolding step approve commit reject
  step-Held events now (prepare_call q) plain none_of h =
      prepare-kept safe k same findings Held events q now plain (λ here free e. rw e refl) h
  step-Held events now (approve_call j) plain none_of h =
      transition-kept safe k Held events j "human_approved" approved now plain
        (λ r here got e. absurd (none_of j refl here)) h
  step-Held events now (reject_call j reason) plain none_of h =
      transition-kept safe k Held events j reason rejected now plain (λ r here got e needed. refl) h
  step-Held events now (commit_call j) plain none_of h =
      transition-kept safe k Held events j "permission_committed_not_executed" committed now plain
        (λ r here got e needed. absurd (blocked r.status e (subst Held got h needed))) h

  -- Whatever requests are prepared, approved, rejected and committed, a request that needs an approval
  -- (by its capability or its side effect) and for which no call is an approval never gets to where it
  -- can be committed, and is not committed: where the redaction leaves the identifiers that the calls
  -- name alone, and the events from which the calls start hold no such request in such a status.
  pub run-Held :
      (events : List Event) (calls : List (ℕ × Call))
      → Plain safe calls
      → NoApproval k calls
      → Held (get events k)
      → Held (get (run safe same findings events calls) k)
  unfolding run
  run-Held events [] plain none_of h = h
  run-Held events ((now, c) ∷ cs) plain none_of h =
      run-Held (step safe same findings events now c) cs plain.1 none_of.1
        (step-Held events now c plain.0 none_of.0 h)

  -- the record at the key is this one, and no transition leads on from it
  step-Ended :
      (x : Record) (events : List Event) (now : ℕ) (c : Call)
      → safe (id_of c) ≡ id_of c
      → Ended x
      → get events k ≡ some x
      → get (step safe same findings events now c) k ≡ some x
  unfolding step approve commit reject
  step-Ended x events now (prepare_call q) plain ended h =
      prepare-kept safe k same findings (λ o. o ≡ some x) events q now plain
        (λ here free. absurd (some_clash x (sym h ∙ free))) h
  step-Ended x events now (approve_call j) plain ended h =
      transition-kept safe k (λ o. o ≡ some x) events j "human_approved" approved now plain
        (λ r here got e. absurd (stuck x r approved ended (sym h ∙ got) e)) h
  step-Ended x events now (reject_call j reason) plain ended h =
      transition-kept safe k (λ o. o ≡ some x) events j reason rejected now plain
        (λ r here got e. absurd (stuck x r rejected ended (sym h ∙ got) e)) h
  step-Ended x events now (commit_call j) plain ended h =
      transition-kept safe k (λ o. o ≡ some x) events j "permission_committed_not_executed"
        committed now plain (λ r here got e. absurd (stuck x r committed ended (sym h ∙ got) e)) h

  -- A request that is rejected or committed is final: whatever calls follow, its record stays as it is,
  -- where the redaction leaves the identifiers that they name alone.
  pub run-Ended :
      (x : Record) (events : List Event) (calls : List (ℕ × Call))
      → Plain safe calls
      → Ended x
      → get events k ≡ some x
      → get (run safe same findings events calls) k ≡ some x
  unfolding run
  run-Ended x events [] plain ended h = h
  run-Ended x events ((now, c) ∷ cs) plain ended h =
      run-Ended x (step safe same findings events now c) cs plain.1 ended
        (step-Ended x events now c plain.0 ended h)
