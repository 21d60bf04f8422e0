-- ===== src/LoopGuard/Spinning.antt =====
-- An agent cannot spin: the guard of noesis_harness/loop_guard.py stops the same action.

use noesis_harness_agent_mem.Prelude.{
  length, drop, length-append, ℕ, zero, suc, ◌-◌, ◌≤◌, ◌<◌, String, ◌≡◌, refl, ◌∙◌, false, List, [],
  ◌∷◌, ◌++◌, arith, ◌==◌, eq_refl,
}
use noesis_harness_agent_mem.Table.{count}
use noesis_harness_agent_mem.Table.Counting.{count-append}
use noesis_harness_agent_mem.Deque.{append_each, append_each-eq-drop, length-append_bounded}
use noesis_harness_agent_mem.LoopGuard.{LoopGuard, check, check_times}

-- what the constructor and every check keep
pub record IsSound (g : LoopGuard) : Type 0 where
  pub repeats_positive : 1 ≤ g.max_repeats
  pub repeats_fit : g.max_repeats ≤ g.window
  pub bounded : length g.seen ≤ g.window

copies : ℕ → String → List String
copies zero fp = []
copies (suc n) fp = fp ∷ copies n fp

check_times-eq :
    (fingerprint : String → String) (g : LoopGuard) (action : String) (n : ℕ)
    → check_times fingerprint g action n
      ≡ record g { seen = append_each g.window g.seen (copies n (fingerprint action)) }
unfolding check_times append_each copies
check_times-eq fingerprint g action zero = refl
check_times-eq fingerprint g action (suc n) =
    check_times-eq fingerprint (check fingerprint g action).1 action n ∙ (unfold check in refl)

length-copies : (n : ℕ) (fp : String) → length (copies n fp) ≡ n
unfolding copies
length-copies zero fp = refl
length-copies (suc n) fp = omega (arith, length-copies n fp)

count-copies : (n : ℕ) (fp : String) → count (λ x. x == fp) (copies n fp) ≡ n
unfolding copies count
count-copies zero fp = refl
count-copies (suc n) fp = ground (arith, eq_refl fp, count-copies n fp)

drop-append : (d : ℕ) (xs ys : List String) → d ≤ length xs → drop d (xs ++ ys) ≡ drop d xs ++ ys
drop-append zero xs ys h = refl
drop-append (suc d) [] ys h = absurd (omega arith)
drop-append (suc d) (x ∷ xs) ys h = drop-append d xs ys (omega arith)

-- the last checks are still in the window
count-recent :
    (w n : ℕ) (fp : String) (seen : List String)
    → 1 ≤ w
    → length seen ≤ w
    → n ≤ w
    → n ≤ count (λ x. x == fp) (append_each w seen (copies n fp))
count-recent w n fp seen positive short few =
    let d = length (seen ++ copies n fp) - w in
    let small : d ≤ length seen =
      omega (arith, length-append seen (copies n fp), length-copies n fp) in
    let e =
      append_each-eq-drop w seen (copies n fp) positive short
      ∙ drop-append d seen (copies n fp) small in
    rw e (omega (arith, count-append (λ x. x == fp) (drop d seen) (copies n fp), count-copies n fp))

-- After `max_repeats` checks of one action in a row, from any state of the guard, the next check of
-- it is blocked, and reports more than `max_repeats` repeats.
pub check-blocks :
    (fingerprint : String → String) (g : LoopGuard) (action : String)
    → IsSound g
    → ((check fingerprint (check_times fingerprint g action g.max_repeats) action).0.ok ≡ false)
      × (g.max_repeats
          < (check fingerprint (check_times fingerprint g action g.max_repeats) action).0.repeats)
check-blocks fingerprint g action v =
    let many =
      count-recent g.window g.max_repeats (fingerprint action) g.seen
        (omega (arith, v.repeats_positive, v.repeats_fit)) v.bounded v.repeats_fit in
    rw (check_times-eq fingerprint g action g.max_repeats)
      (unfold check in (ground (arith, many), omega (arith, many)))

-- A check keeps the guard sound: the window holds at most `window` actions, and the numbers fit.
pub check-IsSound :
    (fingerprint : String → String) (g : LoopGuard) (action : String)
    → IsSound g
    → IsSound (check fingerprint g action).1
unfolding check
check-IsSound fingerprint g action v = record {
  repeats_positive = v.repeats_positive;
  repeats_fit = v.repeats_fit;
  bounded =
      length-append_bounded g.window g.seen (fingerprint action)
        (omega (arith, v.repeats_positive, v.repeats_fit)) v.bounded;
}
