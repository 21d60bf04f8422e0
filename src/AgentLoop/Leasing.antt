-- ===== src/AgentLoop/Leasing.antt =====
-- The calls of a whole run of AgentLoop of noesis_harness/agent_loop.py are in order.
use noesis_harness_agent_mem.Prelude.{
  ℕ, zero, suc, ◌+◌, ◌≤◌, ◌<◌, String, ◌≡◌, refl, Bool, true, false, Option, none, [], arith,
}
use noesis_harness_agent_mem.AgentLoop.{
  Attempt, raised, returned, Status, max_turns, Log, Harness, State, Step, stop, next,
}
use noesis_harness_agent_mem.AgentLoop.Running.{released, take_turn, continue, turns_from, run}
use noesis_harness_agent_mem.AgentLoop.Calls.{orderly, acts, Good}
use noesis_harness_agent_mem.AgentLoop.Stages.{released-Good, claimed-Good}

module _ {ℓ} {W : Type ℓ} where
  Good-le : (n m : ℕ) (st : Step W) → n ≤ m → Good n st → Good m st
  Good-le n m (stop (raised e) s) le (fine, few) = (fine, omega (arith, few))
  Good-le n m (stop (returned r) s) le ((fine, few), end) = ((fine, omega (arith, few)), end)
  Good-le n m (next s) le ((fine, few), own) = ((fine, omega (arith, few)), own)

  abbrev pub is_stop : Step W → Bool
  is_stop (stop r s) = true
  is_stop (next s) = false

module _ {ℓ} {W : Type ℓ} (h : Harness W) (task query : String) where
  -- what `continue` passes on, it ends by the turns that follow
  continue-Good :
      (n m : ℕ) (st : Step W) (go_on : State W → Step W)
      → n ≤ m
      → Good n st
      → ((s : State W)
          → orderly s.calls ≡ true
          → acts s.calls ≤ n
          → Good m (go_on s) × (is_stop (go_on s) ≡ true))
      → Good m (continue h task query st go_on) × (is_stop (continue h task query st go_on) ≡ true)
  unfolding continue
  continue-Good n m (stop r s) go_on le good rest = (Good-le n m (stop r s) le good, refl)
  continue-Good n m (next s) go_on le ((fine, few), own) rest = rest s fine few

  released-stops :
      (s : State W) (status : Status) (reason : String) (entry : Option Log)
      (o : Attempt (Unit {0}) × W)
      → is_stop (released h task query s status reason entry o) ≡ true
  unfolding released
  released-stops s status reason entry (raised e, w) = refl
  released-stops s status reason entry (returned u, w) = refl

  turns_from-Good :
      (m left n : ℕ) (s : State W)
      → left + n ≤ suc m
      → orderly s.calls ≡ true
      → acts s.calls < n
      → Good m (turns_from h task query left n s)
        × (is_stop (turns_from h task query left n s) ≡ true)
  unfolding turns_from
  turns_from-Good m zero n s le fine few = (
    released-Good h task query m s max_turns "" none (h.release task s.world)
        (fine, omega (arith, le, few)) refl,
    released-stops s max_turns "" none (h.release task s.world),
  )
  turns_from-Good m (suc left) n s le fine few =
      continue-Good n m (take_turn h task query s n) (λ s'. turns_from h task query left (suc n) s')
        (omega (arith, le)) (claimed-Good h task query n s (h.acquire task s.world) fine few)
        (λ s' fine' few'.
          turns_from-Good m left (suc n) s' (omega (arith, le)) fine' (omega (arith, few')))

  -- Whatever the collaborators reply and raise: `run` comes to an end; it acts at most `max_turns`
  -- times, and only while it holds the lease; it saves a memory only while it holds the lease and
  -- after the judge passed the latest act; and where it returns a report, it has released the
  -- lease, unless its last turn did not get it (lease_error, lease_shape_error, blocked), and done
  -- means that the judge passed.
  pub run-Good :
      (w : W) → Good h.max_turns (run h task query w) × (is_stop (run h task query w) ≡ true)
  unfolding run
  run-Good w =
      turns_from-Good h.max_turns h.max_turns 1
        (record { world = w; calls = []; turns = []; outputs = [] }) (omega arith)
        (unfold orderly in refl) (unfold acts in omega arith)
