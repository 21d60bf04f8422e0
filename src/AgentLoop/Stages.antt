-- ===== src/AgentLoop/Stages.antt =====
-- Each stage of a turn of noesis_harness/agent_loop.py keeps the calls in order.
use noesis_harness_agent_mem.Prelude.{
  if◌then◌else◌, Bool-cases, ℕ, ◌<◌, String, ◌≡◌, refl, inl, inr, Bool, true, false, ◌&&◌, ◌||◌,
  not, Option, none, some, [], ◌∷◌, ◌++◌, arith, ◌==◌,
}
use noesis_harness_agent_mem.AgentLoop.{
  Attempt, raised, returned, Flag, absent, other, flag, is_true, is_other, Claim, Packed, ActResult,
  Spent, Status, pack_error, pack_shape_error, context_over, guard_error, guard_shape_error, loop,
  act_error, result_shape_error, result_boolean_error, judge_error, judge_shape_error,
  judge_boolean_error, clock_error, budget_error, budget_shape_error, budget, memory_error, done,
  judge_fail, lease_renew_error, Log, Harness, acquire_call, judge_call, act_call, save_call, State,
  Step, noted, guard_key,
}
use noesis_harness_agent_mem.AgentLoop.Running.{
  released, renewed, close, saved, remember, spent, charge, timed, judged, acted, checked, filled,
  claimed,
}
use noesis_harness_agent_mem.AgentLoop.Calls.{held, passed, orderly, acts, is_done, Orderly, Good}

module _ {ℓ} {W : Type ℓ} (h : Harness W) (task query : String) (n : ℕ) where
  pub released-Good :
      (s : State W) (status : Status) (reason : String) (entry : Option Log)
      (o : Attempt (Unit {0}) × W)
      → Orderly n s.calls
      → (not (is_done status) || passed s.calls) ≡ true
      → Good n (released h task query s status reason entry o)
  unfolding released held passed orderly acts
  released-Good s status reason entry (raised e, w) h fine = h
  released-Good s status reason none (returned u, w) h fine = (h, ground (arith, fine))
  released-Good s status reason (some entry) (returned u, w) h fine = (h, ground (arith, fine))

  renewed-Good :
      (s : State W) (o : Attempt (Unit {0}) × W)
      → Orderly n s.calls
      → held s.calls ≡ true
      → Good n (renewed h task query s n o)
  unfolding renewed held passed orderly acts
  renewed-Good s (raised e, w) fit own = released-Good _ lease_renew_error e _ _ fit refl
  renewed-Good s (returned u, w) fit own = (fit, own)

  -- the rest of a turn, after the judge
  module _ (result : ActResult) (verdict : Flag) where
    abbrev Judged : State W → Type 0
    Judged s =
        Orderly n s.calls × (held s.calls ≡ true) × (is_true verdict ≡ true → passed s.calls ≡ true)

    close-Good : (s : State W) → Judged s → Good n (close h task query s n result verdict)
    close-Good s (fit, own, pass) = elim (Bool-cases (is_true verdict)) [
      | inl v ↦ elim (Bool-cases (is_true result.done)) [
        | inl d ↦
            unfold close in
            rw (v, d) (released-Good s done "" none (h.release task s.world) fit (pass v))
        | inr d ↦ unfold close in rw (v, d) (renewed-Good s (h.renew task s.world) fit own)
      ]
      | inr v ↦ elim (Bool-cases (is_true result.done)) [
        | inl d ↦
            unfold close in
            rw (v, d) (released-Good s judge_fail "" none (h.release task s.world) fit refl)
        | inr d ↦
            unfold close in
            rw (v, d) (released-Good s judge_fail "" none (h.release task s.world) fit refl)
      ]
    ]

    saved-Good :
        (s : State W) (o : Attempt (Unit {0}) × W)
        → is_true verdict ≡ true
        → Judged s
        → Good n (saved h task query s n result verdict o)
    unfolding saved held passed orderly acts
    saved-Good s (raised e, w) v ((fine, few), own, pass) =
        released-Good _ memory_error e _ _ (rw (own, pass v) fine, few) refl
    saved-Good s (returned u, w) v ((fine, few), own, pass) =
        close-Good (noted s save_call w) ((rw (own, pass v) fine, few), own, pass)

    remember-Good : (s : State W) → Judged s → Good n (remember h task query s n result verdict)
    remember-Good s j = elim (Bool-cases (is_true verdict)) [
      | inl v ↦ elim (Bool-cases (result.memory == "")) [
        | inl m ↦ unfold remember in rw (v, m) (close-Good s j)
        | inr m ↦ unfold remember in rw (v, m) (saved-Good s (h.save result.memory s.world) v j)
      ]
      | inr v ↦ elim (Bool-cases (result.memory == "")) [
        | inl m ↦ unfold remember in rw (v, m) (close-Good s j)
        | inr m ↦ unfold remember in rw (v, m) (close-Good s j)
      ]
    ]

    spent-Good :
        (s : State W) (o : Attempt (Option Spent) × W)
        → Judged s
        → Good n (spent h task query s n result verdict o)
    unfolding spent
    spent-Good s (raised e, w) (fit, own, pass) =
        unfold spent in released-Good _ budget_error e _ _ fit refl
    spent-Good s (returned none, w) (fit, own, pass) =
        unfold spent in released-Good _ budget_shape_error "" _ _ fit refl
    spent-Good s (returned (some reply), w) (fit, own, pass) =
        elim (Bool-cases (not reply.ok && (reply.reason == "exhausted"))) [
          | inl out ↦ rw out (released-Good _ budget "" _ _ fit refl)
          | inr enough ↦ rw enough (remember-Good (record s { world = w }) (fit, own, pass))
        ]

    charge-Good :
        (s : State W) (spend : Option (String → ℕ → Bool → W → Attempt (Option Spent) × W))
        → Judged s
        → Good n (charge h task query s n result verdict spend)
    charge-Good s none j = unfold charge in remember-Good s j
    charge-Good s (some spend) j =
        unfold charge in spent-Good s (spend task n (is_true verdict) s.world) j

    timed-Good :
        (s : State W) (packed : Packed) (o : Attempt ℕ × W)
        → Judged s
        → Good n (timed h task query s n packed result verdict o)
    unfolding timed
    timed-Good s packed (raised e, w) (fit, own, pass) =
        unfold timed in released-Good _ clock_error e _ _ fit refl
    timed-Good s packed (returned ts, w) j = charge-Good _ h.spend j

  judged-Good :
      (s : State W) (packed : Packed) (result : ActResult) (o : Attempt (Option Flag) × W)
      → Orderly n s.calls
      → held s.calls ≡ true
      → Good n (judged h task query s n packed result o)
  unfolding judged held passed orderly acts
  judged-Good s packed result (raised e, w) fit own = released-Good _ judge_error e _ _ fit refl
  judged-Good s packed result (returned none, w) fit own =
      released-Good _ judge_shape_error "" _ _ fit refl
  judged-Good s packed result (returned (some other), w) fit own =
      released-Good _ judge_boolean_error "pass" _ _ fit refl
  judged-Good s packed result (returned (some absent), w) fit own =
      timed-Good result absent (noted s (judge_call false) w) packed (h.clock w) (fit, own, λ v. v)
  judged-Good s packed result (returned (some (flag b)), w) fit own =
      timed-Good result (flag b) (noted s (judge_call b) w) packed (h.clock w) (fit, own, λ v. v)

  acted-Good :
      (s : State W) (packed : Packed) (o : Attempt (Option ActResult) × W)
      → orderly s.calls ≡ true
      → acts s.calls < n
      → held s.calls ≡ true
      → Good n (acted h task query s n packed o)
  unfolding acted held passed orderly acts
  acted-Good s packed (raised e, w) fine few own =
      unfold acted in released-Good _ act_error e _ _ (rw own fine, omega (arith, few)) refl
  acted-Good s packed (returned none, w) fine few own =
      unfold acted in
      released-Good _ result_shape_error "" _ _ (rw own fine, omega (arith, few)) refl
  acted-Good s packed (returned (some result), w) fine few own =
      elim (Bool-cases (is_other result.done)) [
        | inl bad ↦
            unfold acted in
            rw bad (
              released-Good _ result_boolean_error "done" _ _ (rw own fine, omega (arith, few))
                refl)
        | inr good ↦
            unfold acted in
            rw good (
              let outputs = s.outputs ++ result.output ∷ [] in
              judged-Good (record s { world = w; calls = act_call ∷ s.calls; outputs = outputs })
                packed result (h.judge outputs w) (rw own fine, omega (arith, few)) own)
      ]

  checked-Good :
      (s : State W) (packed : Packed) (o : Attempt (Option Bool) × W)
      → orderly s.calls ≡ true
      → acts s.calls < n
      → held s.calls ≡ true
      → Good n (checked h task query s n packed o)
  unfolding checked
  checked-Good s packed (raised e, w) fine few own =
      released-Good _ guard_error e _ _ (fine, omega (arith, few)) refl
  checked-Good s packed (returned none, w) fine few own =
      released-Good _ guard_shape_error "" _ _ (fine, omega (arith, few)) refl
  checked-Good s packed (returned (some false), w) fine few own =
      released-Good _ loop "" _ _ (fine, omega (arith, few)) refl
  checked-Good s packed (returned (some true), w) fine few own =
      acted-Good (record s { world = w }) packed
        (h.act (record { turn = n; query = query; pack = packed; agent = h.agent_id; task = task })
          w)
        fine few own

  if-Good : (b : Bool) (x y : Step W) → Good n x → Good n y → Good n (if b then x else y)
  if-Good true x y gx gy = gx
  if-Good false x y gx gy = gy

  filled-Good :
      (s : State W) (o : Attempt (Option Packed) × W)
      → orderly s.calls ≡ true
      → acts s.calls < n
      → held s.calls ≡ true
      → Good n (filled h task query s n o)
  unfolding filled
  filled-Good s (raised e, w) fine few own =
      released-Good _ pack_error e _ _ (fine, omega (arith, few)) refl
  filled-Good s (returned none, w) fine few own =
      released-Good _ pack_shape_error "" _ _ (fine, omega (arith, few)) refl
  filled-Good s (returned (some packed), w) fine few own =
      if-Good packed.ok _ _
        (checked-Good (record s { world = w }) packed (h.check (guard_key task query) w) fine few
          own)
        (released-Good (record s { world = w }) context_over "" none (h.release task w)
          (fine, omega (arith, few)) refl)

  pub claimed-Good :
      (s : State W) (o : Attempt (Option Claim) × W)
      → orderly s.calls ≡ true
      → acts s.calls < n
      → Good n (claimed h task query s n o)
  unfolding claimed held passed orderly acts
  claimed-Good s (raised e, w) fine few = ((fine, omega (arith, few)), refl)
  claimed-Good s (returned none, w) fine few = ((fine, omega (arith, few)), refl)
  claimed-Good s (returned (some claim), w) fine few = elim (Bool-cases claim.ok) [
    | inl won ↦ rw won (filled-Good (noted s (acquire_call true) w) (h.pack query w) fine few refl)
    | inr lost ↦ rw lost ((fine, omega (arith, few)), refl)
  ]
