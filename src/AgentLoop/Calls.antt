-- ===== src/AgentLoop/Calls.antt =====
-- When the calls of AgentLoop.run of noesis_harness/agent_loop.py are in order.
use noesis_harness_agent_mem.Prelude.{
  ℕ, suc, ◌≤◌, ◌≡◌, Bool, true, false, ◌&&◌, ◌||◌, not, List, [], ◌∷◌,
}
use noesis_harness_agent_mem.AgentLoop.{
  raised, returned, Status, lease_error, lease_shape_error, blocked, done, Call, acquire_call,
  judge_call, release_call, act_call, renew_call, save_call, Step, stop, next,
}

-- whether the agent has the lease after the calls, which come latest first
unfoldable pub held : List Call → Bool
held [] = false
held (acquire_call won ∷ cs) = won || held cs
held (release_call ∷ cs) = false
held (act_call ∷ cs) = held cs
held (judge_call b ∷ cs) = held cs
held (renew_call ∷ cs) = held cs
held (save_call ∷ cs) = held cs

-- whether the judge passed the latest act
unfoldable pub passed : List Call → Bool
passed [] = false
passed (acquire_call won ∷ cs) = passed cs
passed (release_call ∷ cs) = passed cs
passed (act_call ∷ cs) = false
passed (judge_call b ∷ cs) = b
passed (renew_call ∷ cs) = passed cs
passed (save_call ∷ cs) = passed cs

-- every act holds the lease, and every save holds it and follows a pass of the judge
unfoldable pub orderly : List Call → Bool
orderly [] = true
orderly (acquire_call won ∷ cs) = orderly cs
orderly (release_call ∷ cs) = orderly cs
orderly (act_call ∷ cs) = held cs && orderly cs
orderly (judge_call b ∷ cs) = orderly cs
orderly (renew_call ∷ cs) = orderly cs
orderly (save_call ∷ cs) = held cs && passed cs && orderly cs

unfoldable pub acts : List Call → ℕ
acts [] = 0
acts (acquire_call won ∷ cs) = acts cs
acts (release_call ∷ cs) = acts cs
acts (act_call ∷ cs) = suc (acts cs)
acts (judge_call b ∷ cs) = acts cs
acts (renew_call ∷ cs) = acts cs
acts (save_call ∷ cs) = acts cs

-- the ends at which a turn does not get the lease
abbrev pub is_miss : Status → Bool
is_miss lease_error = true
is_miss lease_shape_error = true
is_miss blocked = true
is_miss s = false

abbrev pub is_done : Status → Bool
is_done done = true
is_done s = false

-- at the end the lease is given back, unless the last turn did not get it; done means a pass
abbrev pub ended : Status → List Call → Bool
ended status cs = (is_miss status || not (held cs)) && (not (is_done status) || passed cs)

abbrev pub Orderly : ℕ → List Call → Type 0
Orderly n cs = (orderly cs ≡ true) × (acts cs ≤ n)

module _ {ℓ} {W : Type ℓ} where
  abbrev pub Good : ℕ → Step W → Type 0
  Good n (stop (raised e) s) = Orderly n s.calls
  Good n (stop (returned r) s) = Orderly n s.calls × (ended r.status s.calls ≡ true)
  Good n (next s) = Orderly n s.calls × (held s.calls ≡ true)
