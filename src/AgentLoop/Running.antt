-- ===== src/AgentLoop/Running.antt =====
-- AgentLoop.run of noesis_harness/agent_loop.py: a turn is the chain of its calls, each continued by
-- what the source does with the reply.
use noesis_harness_agent_mem.Prelude.{
  if◌then◌else◌, ℕ, zero, suc, String, Bool, true, false, ◌&&◌, not, Option, none, some, [], ◌∷◌,
  ◌++◌, ◌==◌,
}
use noesis_harness_agent_mem.AgentLoop.{
  Attempt, raised, returned, Flag, absent, other, flag, is_true, is_other, Claim, Packed, ActResult,
  Spent, Turn, Status, lease_error, lease_shape_error, blocked, pack_error, pack_shape_error,
  context_over, guard_error, guard_shape_error, loop, act_error, result_shape_error,
  result_boolean_error, judge_error, judge_shape_error, judge_boolean_error, clock_error,
  budget_error, budget_shape_error, budget, memory_error, done, judge_fail, lease_renew_error,
  max_turns, Log, fault, lease_miss, loop_block, turn_log, Report, Harness, acquire_call,
  judge_call, release_call, act_call, renew_call, save_call, State, Step, stop, next, noted,
  guard_key,
}

module _ {ℓ} {W : Type ℓ} (h : Harness W) (task query : String) where
  -- _log: an exception of the event log is dropped
  abbrev pub emit : Option (Log → W → Attempt (Unit {0}) × W) → Log → W → W
  emit none entry w = w
  emit (some append) entry w = (append entry w).1

  abbrev pub log : State W → Log → State W
  log s entry = record s { world = emit h.events entry s.world }

  abbrev pub log_opt : State W → Option Log → State W
  log_opt s none = s
  log_opt s (some entry) = log s entry

  abbrev pub report : State W → Status → String → Attempt Report
  report s status reason =
      returned (record { status = status; reason = reason; turns = s.turns; outputs = s.outputs })

  -- the lease is given back, then the end is logged; an exception of `release` leaves `run`
  unfoldable pub released : State W → Status → String → Option Log → Attempt (Unit {0}) × W → Step W
  released s status reason entry (raised e, w) = stop (raised e) (noted s release_call w)
  released s status reason entry (returned u, w) =
      stop (report s status reason) (log_opt (noted s release_call w) entry)

  abbrev pub finish : State W → Status → String → Option Log → Step W
  finish s status reason entry = released s status reason entry (h.release task s.world)

  abbrev pub failed : State W → Status → ℕ → String → Step W
  failed s status n reason = finish s status reason (some (fault status n reason))

  -- the end of a turn
  unfoldable pub renewed : State W → ℕ → Attempt (Unit {0}) × W → Step W
  renewed s n (raised e, w) = failed (record s { world = w }) lease_renew_error n e
  renewed s n (returned u, w) = next (noted s renew_call w)

  unfoldable pub close : State W → ℕ → ActResult → Flag → Step W
  close s n result verdict =
      let again = renewed s n (h.renew task s.world) in
      if is_true result.done && is_true verdict
      then finish s done "" none
      else if not (is_true verdict)
      then finish s judge_fail "" none
      else again

  unfoldable pub saved : State W → ℕ → ActResult → Flag → Attempt (Unit {0}) × W → Step W
  saved s n result verdict (raised e, w) = failed (noted s save_call w) memory_error n e
  saved s n result verdict (returned u, w) = close (noted s save_call w) n result verdict

  unfoldable pub remember : State W → ℕ → ActResult → Flag → Step W
  remember s n result verdict =
      if not (result.memory == "") && is_true verdict
      then saved s n result verdict (h.save result.memory s.world)
      else close s n result verdict

  unfoldable pub spent : State W → ℕ → ActResult → Flag → Attempt (Option Spent) × W → Step W
  spent s n result verdict (raised e, w) = failed (record s { world = w }) budget_error n e
  spent s n result verdict (returned none, w) =
      failed (record s { world = w }) budget_shape_error n ""
  spent s n result verdict (returned (some reply), w) =
      if not reply.ok && (reply.reason == "exhausted")
      then finish (record s { world = w }) budget "" none
      else remember (record s { world = w }) n result verdict

  unfoldable pub charge :
      State W
      → ℕ
      → ActResult
      → Flag
      → Option (String → ℕ → Bool → W → Attempt (Option Spent) × W)
      → Step W
  charge s n result verdict none = remember s n result verdict
  charge s n result verdict (some spend) =
      spent s n result verdict (spend task n (is_true verdict) s.world)

  unfoldable pub timed : State W → ℕ → Packed → ActResult → Flag → Attempt ℕ × W → Step W
  timed s n packed result verdict (raised e, w) = failed (record s { world = w }) clock_error n e
  timed s n packed result verdict (returned ts, w) =
      let turn : Turn = record {
        n = n;
        output = result.output;
        judge = verdict;
        tokens = packed.tokens;
        ts = ts;
      } in
      charge (log (record s { world = w; turns = s.turns ++ turn ∷ [] }) (turn_log n verdict)) n
        result verdict h.spend

  unfoldable pub judged : State W → ℕ → Packed → ActResult → Attempt (Option Flag) × W → Step W
  judged s n packed result (raised e, w) = failed (record s { world = w }) judge_error n e
  judged s n packed result (returned none, w) =
      failed (record s { world = w }) judge_shape_error n ""
  judged s n packed result (returned (some other), w) =
      failed (record s { world = w }) judge_boolean_error n "pass"
  judged s n packed result (returned (some absent), w) =
      let s' = noted s (judge_call false) w in timed s' n packed result absent (h.clock w)
  judged s n packed result (returned (some (flag b)), w) =
      let s' = noted s (judge_call b) w in timed s' n packed result (flag b) (h.clock w)

  unfoldable pub acted : State W → ℕ → Packed → Attempt (Option ActResult) × W → Step W
  acted s n packed (raised e, w) = failed (noted s act_call w) act_error n e
  acted s n packed (returned none, w) = failed (noted s act_call w) result_shape_error n ""
  acted s n packed (returned (some result), w) =
      let s' = noted s act_call w in
      let outputs = s.outputs ++ result.output ∷ [] in
      if is_other result.done
      then failed s' result_boolean_error n "done"
      else judged (record s' { outputs = outputs }) n packed result (h.judge outputs w)

  unfoldable pub checked : State W → ℕ → Packed → Attempt (Option Bool) × W → Step W
  checked s n packed (raised e, w) = failed (record s { world = w }) guard_error n e
  checked s n packed (returned none, w) = failed (record s { world = w }) guard_shape_error n ""
  checked s n packed (returned (some false), w) =
      finish (log (record s { world = w }) (loop_block n)) loop "" none
  checked s n packed (returned (some true), w) =
      acted (record s { world = w }) n packed
        (h.act (record { turn = n; query = query; pack = packed; agent = h.agent_id; task = task })
          w)

  unfoldable pub filled : State W → ℕ → Attempt (Option Packed) × W → Step W
  filled s n (raised e, w) = failed (record s { world = w }) pack_error n e
  filled s n (returned none, w) = failed (record s { world = w }) pack_shape_error n ""
  filled s n (returned (some packed), w) =
      if packed.ok
      then checked (record s { world = w }) n packed (h.check (guard_key task query) w)
      else finish (record s { world = w }) context_over "" none

  abbrev pub missed : State W → Status → String → Log → W → Step W
  missed s status reason entry w =
      stop (report s status reason) (log (noted s (acquire_call false) w) entry)

  unfoldable pub claimed : State W → ℕ → Attempt (Option Claim) × W → Step W
  claimed s n (raised e, w) = missed s lease_error e (fault lease_error n e) w
  claimed s n (returned none, w) = missed s lease_shape_error "" (fault lease_shape_error n "") w
  claimed s n (returned (some claim), w) =
      if claim.ok
      then filled (noted s (acquire_call true) w) n (h.pack query w)
      else missed s blocked claim.holder (lease_miss claim.holder) w

  abbrev pub take_turn : State W → ℕ → Step W
  take_turn s n = claimed s n (h.acquire task s.world)

  unfoldable pub continue : Step W → (State W → Step W) → Step W
  continue (stop r s) go_on = stop r s
  continue (next s) go_on = go_on s

  -- for n in range(1, self.max_turns + 1), with the number of turns that are left
  unfoldable pub turns_from : ℕ → ℕ → State W → Step W
  turns_from zero n s = finish s max_turns "" none
  turns_from (suc left) n s = continue (take_turn s n) (λ s'. turns_from left (suc n) s')

  unfoldable pub run : W → Step W
  run w = turns_from h.max_turns 1 (record { world = w; calls = []; turns = []; outputs = [] })
