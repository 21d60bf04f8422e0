-- ===== src/RingBuffer/Window.antt =====
-- What noesis_harness/ring_buffer.py retains.
use mathlib.Core.Path.{subst}
use noesis_harness_agent_mem.Prelude.{
  ok, err, ltb, Bool-cases, length, drop, Result, ℕ, ◌-◌, ◌≤◌, ◌≡◌, refl, sym, ap, ◌∙◌, inl, inr,
  true, false, List, [], ◌∷◌, arith,
}
use noesis_harness_agent_mem.Deque.{append_each, append_each-eq-drop}
use noesis_harness_agent_mem.RingBuffer.{
  RingBuffer, Error, value_error, init, push, to_list, push_all,
}

module _ {ℓ} {A : Type ℓ} where
  push_all-buf :
      (b : RingBuffer A) (xs : List A)
      → push_all b xs ≡ record b { buf = append_each b.capacity b.buf xs }
  unfolding push_all append_each
  push_all-buf b [] = refl
  push_all-buf b (x ∷ xs) = push_all-buf (push b x) xs ∙ (unfold push in refl)

  err-ok : (e : Error) (b : RingBuffer A) → ◌≡◌ {A = Result Error (RingBuffer A)} (err e) (ok b) → ⊥
  err-ok e b same = cc

  ok-same : (a b : RingBuffer A) → ◌≡◌ {A = Result Error (RingBuffer A)} (ok a) (ok b) → a ≡ b
  ok-same a b same = cc

  init-small : (n : ℕ) → ltb n 1 ≡ true → init {A = A} n ≡ err value_error
  unfolding init
  init-small n small = rw small refl

  init-large : (n : ℕ) → ltb n 1 ≡ false → init {A = A} n ≡ ok (record { capacity = n; buf = [] })
  unfolding init
  init-large n large = rw large refl

  init-buffer :
      (n : ℕ) (b : RingBuffer A) → init n ≡ ok b → (1 ≤ n) × (b ≡ record { capacity = n; buf = [] })
  init-buffer n b e = elim (Bool-cases (ltb n 1)) [
    | inl small ↦ absurd (err-ok value_error b (sym (init-small n small) ∙ e))
    | inr large ↦ (ground arith, sym (ok-same _ b (sym (init-large n large) ∙ e)))
  ]

  -- After any pushes onto a new buffer of capacity `n`, `to_list` gives the last `n` of the pushed
  -- items (all of them, if they are fewer), the oldest first.
  pub push_all-to_list :
      (n : ℕ) (b : RingBuffer A) (xs : List A)
      → init n ≡ ok b
      → to_list (push_all b xs) ≡ drop (length xs - n) xs
  push_all-to_list n b xs e =
      let (positive, new) = init-buffer n b e in
      unfold to_list in
      ap (λ (c : RingBuffer A). c.buf) (push_all-buf b xs)
      ∙ subst (λ (c : RingBuffer A). append_each c.capacity c.buf xs ≡ drop (length xs - n) xs)
          (sym new) (append_each-eq-drop n [] xs positive (omega arith))
