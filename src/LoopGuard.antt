-- ===== src/LoopGuard.antt =====
-- class LoopGuard of noesis_harness/loop_guard.py. `fingerprint` is the digest of an action's text; the
-- constructor's tests for int say nothing about numbers.
pub mod Spinning
use noesis_harness_agent_mem.Prelude.{
  err, ltb, leb, if◌then◌else◌, Result, ℕ, zero, suc, ◌+◌, String, Bool, ◌||◌, not, List, [], ◌==◌,
  ok,
}
use noesis_harness_agent_mem.Table.{count}
use noesis_harness_agent_mem.Deque.{append_bounded}

pub record LoopGuard : Type 0 where
  pub window : ℕ
  pub max_repeats : ℕ
  pub seen : List String

pub data Error : Type 0 where
  loop_guard_window_invalid loop_guard_repeats_invalid : Error

pub record Verdict : Type 0 where
  pub ok : Bool
  pub repeats : ℕ
  pub fingerprint : String

unfoldable pub init : ℕ → ℕ → Result Error LoopGuard
init window max_repeats =
    if ltb window 1
    then err loop_guard_window_invalid
    else if ltb max_repeats 1 || ltb window max_repeats
    then err loop_guard_repeats_invalid
    else ok (record { window = window; max_repeats = max_repeats; seen = [] })

unfoldable pub check : (String → String) → LoopGuard → String → Verdict × LoopGuard
check fingerprint g action =
    let fp = fingerprint action in
    let n = count (λ x. x == fp) g.seen in
    let blocked = leb g.max_repeats n in
    (
      record { ok = not blocked; repeats = n + 1; fingerprint = fp },
      record g { seen = append_bounded g.window g.seen fp },
    )

unfoldable pub reset : LoopGuard → LoopGuard
reset g = record g { seen = [] }

-- the same action again and again
unfoldable pub check_times : (String → String) → LoopGuard → String → ℕ → LoopGuard
check_times fingerprint g action zero = g
check_times fingerprint g action (suc n) =
    check_times fingerprint (check fingerprint g action).1 action n
