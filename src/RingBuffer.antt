-- ===== src/RingBuffer.antt =====
-- class RingBuffer of noesis_harness/ring_buffer.py.
pub mod Window
use noesis_harness_agent_mem.Prelude.{
  ok, err, ltb, leb, if◌then◌else◌, length, Result, ℕ, Bool, List, [], ◌∷◌,
}
use noesis_harness_agent_mem.Deque.{append_bounded}

pub record RingBuffer {ℓ} (A : Type ℓ) : Type ℓ where
  pub capacity : ℕ
  pub buf : List A

pub data Error : Type 0 where
  value_error : Error

module _ {ℓ} {A : Type ℓ} where
  unfoldable pub init : ℕ → Result Error (RingBuffer A)
  init capacity =
      if ltb capacity 1 then err value_error else ok (record { capacity = capacity; buf = [] })

  unfoldable pub push : RingBuffer A → A → RingBuffer A
  push b item = record b { buf = append_bounded b.capacity b.buf item }

  unfoldable pub to_list : RingBuffer A → List A
  to_list b = b.buf

  unfoldable pub is_full : RingBuffer A → Bool
  is_full b = leb b.capacity (length b.buf)

  -- the items pushed one after the other
  unfoldable pub push_all : RingBuffer A → List A → RingBuffer A
  push_all b [] = b
  push_all b (x ∷ xs) = push_all (push b x) xs
