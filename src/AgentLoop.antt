-- ===== src/AgentLoop.antt =====
-- class AgentLoop of noesis_harness/agent_loop.py. The collaborators that are injected (leases, pack,
-- guard, judge, budget, memory, events, clock) and `act` are the fields of `Harness`, over a world of
-- their own; a call may raise, and what should be a Mapping may be none. `calls` is the record of the
-- calls that matter to the theorems, the latest first. `act` is callable: the exit act_invalid, before
-- the first turn, is left out.
pub mod Running
pub mod Calls
pub mod Stages
pub mod Leasing
use Prim.Native.String.{◌++◌}
use noesis_harness_agent_mem.Prelude.{ℕ, String, Bool, true, false, Option, List, ◌∷◌}

-- a call that raises (the type's name), or returns
pub data Attempt {ℓ} (A : Type ℓ) : Type ℓ where
  raised : String → Attempt A
  returned : A → Attempt A

-- a field of a Mapping that should be a bool
pub data Flag : Type 0 where
  absent other : Flag
  flag : Bool → Flag

abbrev pub is_true : Flag → Bool
is_true absent = false
is_true other = false
is_true (flag b) = b

abbrev pub is_other : Flag → Bool
is_other absent = false
is_other other = true
is_other (flag b) = false

pub record Claim : Type 0 where
  pub ok : Bool
  pub holder : String

pub record Packed : Type 0 where
  pub ok : Bool
  pub tokens : Option ℕ

pub record Context : Type 0 where
  pub turn : ℕ
  pub query : String
  pub pack : Packed
  pub agent : String
  pub task : String

-- `act(ctx) or {}`: a false value is the empty Mapping; an absent text is empty
pub record ActResult : Type 0 where
  pub done : Flag
  pub output : String
  pub memory : String

pub record Spent : Type 0 where
  pub ok : Bool
  pub reason : String

pub record Turn : Type 0 where
  pub n : ℕ
  pub output : String
  pub judge : Flag
  pub tokens : Option ℕ
  pub ts : ℕ

pub data Status : Type 0 where
  lease_error lease_shape_error blocked pack_error pack_shape_error context_over : Status
  guard_error guard_shape_error loop act_error result_shape_error result_boolean_error : Status
  judge_error judge_shape_error judge_boolean_error clock_error : Status
  budget_error budget_shape_error budget memory_error done judge_fail lease_renew_error max_turns :
      Status

pub data Log : Type 0 where
  fault : Status → ℕ → String → Log
  lease_miss : String → Log
  loop_block : ℕ → Log
  turn_log : ℕ → Flag → Log

pub record Report : Type 0 where
  pub status : Status
  pub reason : String
  pub turns : List Turn
  pub outputs : List String

-- `spend` and `events` are none where no budget and no event log is given
pub record Harness {ℓ} (W : Type ℓ) : Type ℓ where
  pub agent_id : String
  pub max_turns : ℕ
  pub acquire : String → W → Attempt (Option Claim) × W
  pub release : String → W → Attempt (Unit {0}) × W
  pub renew : String → W → Attempt (Unit {0}) × W
  pub pack : String → W → Attempt (Option Packed) × W
  pub check : String → W → Attempt (Option Bool) × W
  pub act : Context → W → Attempt (Option ActResult) × W
  pub judge : List String → W → Attempt (Option Flag) × W
  pub clock : W → Attempt ℕ × W
  pub spend : Option (String → ℕ → Bool → W → Attempt (Option Spent) × W)
  pub save : String → W → Attempt (Unit {0}) × W
  pub events : Option (Log → W → Attempt (Unit {0}) × W)

pub data Call : Type 0 where
  acquire_call judge_call : Bool → Call
  release_call act_call renew_call save_call : Call

pub record State {ℓ} (W : Type ℓ) : Type ℓ where
  pub world : W
  pub calls : List Call
  pub turns : List Turn
  pub outputs : List String

-- the end of `run`, or the next turn
pub data Step {ℓ} (W : Type ℓ) : Type ℓ where
  stop : Attempt Report → State W → Step W
  next : State W → Step W

abbrev pub noted {ℓ} : {W : Type ℓ} → State W → Call → W → State W
noted s c w = record s { world = w; calls = c ∷ s.calls }

-- "%s|%s" % (task_key, query)
abbrev pub guard_key : String → String → String
guard_key task query = task ++ "|" ++ query
