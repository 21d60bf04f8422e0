-- ===== src/Deque.antt =====
-- A Python deque that keeps at most `n` items: an append to a full one drops the oldest, on the left.
use mathlib.Core.List.{append-nil, append_assoc}
use noesis_harness_agent_mem.Prelude.{
  leb, if◌then◌else◌, Bool-cases, length, drop, length-append, ℕ, suc, ◌-◌, ◌≤◌, ◌≡◌, refl, sym, ap,
  ◌∙◌, inl, inr, List, [], ◌∷◌, ◌++◌, arith,
}

module _ {ℓ} {A : Type ℓ} where
  unfoldable pub append_bounded : ℕ → List A → A → List A
  append_bounded n xs x = if leb n (length xs) then drop 1 xs ++ x ∷ [] else xs ++ x ∷ []

  unfoldable pub append_each : ℕ → List A → List A → List A
  append_each n xs [] = xs
  append_each n xs (y ∷ ys) = append_each n (append_bounded n xs y) ys

  length-one : (x : A) → length (x ∷ []) ≡ 1
  length-one x = refl

  length-drop_one : (xs : List A) → length (drop 1 xs) ≡ length xs - 1
  length-drop_one [] = omega arith
  length-drop_one (x ∷ xs) = omega arith

  pub length-append_bounded :
      (n : ℕ) (xs : List A) (x : A) → 1 ≤ n → length xs ≤ n → length (append_bounded n xs x) ≤ n
  length-append_bounded n xs x positive short = elim (Bool-cases (leb n (length xs))) [
    | inl full ↦
        unfold append_bounded in
        rw full (
          omega (
            arith,
            length-append (drop 1 xs) (x ∷ []),
            length-one x,
            length-drop_one xs,
            positive,
            short,
          ))
    | inr room ↦
        unfold append_bounded in
        rw room (ground (arith, length-append xs (x ∷ []), length-one x, room))
  ]

  -- what the appends drop is what exceeds the bound
  overflow : ℕ → List A → List A
  overflow n xs = drop (length xs - n) xs

  overflow-short : (n : ℕ) (xs : List A) → length xs ≤ n → overflow n xs ≡ xs
  unfolding overflow
  overflow-short n xs h = let z : length xs - n ≡ 0 = omega arith in rw z refl

  joined : (xs : List A) (x : A) (ys : List A) → (xs ++ x ∷ []) ++ ys ≡ xs ++ x ∷ ys
  joined xs x ys = append_assoc xs (x ∷ []) ys

  overflow-cons :
      (n : ℕ) (b : A) (xs : List A) → n ≤ length xs → overflow n (b ∷ xs) ≡ overflow n xs
  unfolding overflow
  overflow-cons n b xs le =
      let e : suc (length xs) - n ≡ suc (length xs - n) = omega arith in rw e refl

  length-cons : (x : A) (ys : List A) → length (x ∷ ys) ≡ suc (length ys)
  length-cons x ys = refl

  drops :
      (n : ℕ) (xs : List A) (x : A) (ys : List A)
      → n ≤ length xs
      → 1 ≤ n
      → length xs ≤ n
      → overflow n ((drop 1 xs ++ x ∷ []) ++ ys) ≡ overflow n (xs ++ x ∷ ys)
  drops n [] x ys full positive short = absurd (omega arith)
  drops n (b ∷ bs) x ys full positive short =
      ap (overflow n) (joined bs x ys)
      ∙ sym (
          overflow-cons n b (bs ++ x ∷ ys)
            (omega (arith, length-append bs (x ∷ ys), short, full, length-cons x ys)))

  overflow-append_bounded :
      (n : ℕ) (xs : List A) (x : A) (ys : List A)
      → 1 ≤ n
      → length xs ≤ n
      → overflow n (append_bounded n xs x ++ ys) ≡ overflow n (xs ++ x ∷ ys)
  overflow-append_bounded n xs x ys positive short = elim (Bool-cases (leb n (length xs))) [
    | inr room ↦ unfold append_bounded in rw room (ap (overflow n) (joined xs x ys))
    | inl full ↦ unfold append_bounded in rw full (drops n xs x ys (ground arith) positive short)
  ]

  -- Appending to a bounded deque keeps the last `n` of all items.
  pub append_each-eq-drop :
      (n : ℕ) (xs ys : List A)
      → 1 ≤ n
      → length xs ≤ n
      → append_each n xs ys ≡ drop (length (xs ++ ys) - n) (xs ++ ys)
  unfolding append_each overflow
  append_each-eq-drop n xs [] positive short =
      let e = append-nil xs in rw e (sym (overflow-short n xs short))
  append_each-eq-drop n xs (y ∷ ys) positive short =
      append_each-eq-drop n (append_bounded n xs y) ys positive
        (length-append_bounded n xs y positive short)
      ∙ overflow-append_bounded n xs y ys positive short
