-- ===== src/Budget/Cap.antt =====
-- The daily cap of noesis_harness/budget.py, and the race of two callers.
use noesis_harness_agent_mem.Table.Finding.{fetchone-append}
use noesis_harness_agent_mem.Prelude.{
  eqb, if◌then◌else◌, is_some, Bool-cases, leb→le, ℕ, ◌+◌, ◌-◌, ◌≤◌, ◌<◌, String, ◌≡◌, refl, ◌∙◌,
  ◌≢◌, ◌⊎◌, inl, inr, Bool, true, false, none, List, [], ◌∷◌, ◌++◌, arith, ◌==◌, eq_iff, eq_refl,
}
use noesis_harness_agent_mem.Table.{fetchone}
use noesis_harness_agent_mem.Budget.{
  Budget, Spend, used, remaining, can_spend, has_key, write, spend,
}

used-append : (day : String) (xs ys : List Spend) → used day (xs ++ ys) ≡ used day xs + used day ys
unfolding used
used-append day [] ys = omega arith
used-append day (x ∷ xs) ys = omega (arith, used-append day xs ys)

used-written :
    (day key d : String) (units now : ℕ) (rows : List Spend)
    → used d (rows ++ record { day = day; key = key; units = units; created_at = now } ∷ [])
      ≡ used d rows + (if day == d then units else 0)
used-written day key d units now rows = used-append d rows _ ∙ (unfold used in omega arith)

write-used :
    (s : Budget) (day key : String) (units now : ℕ)
    → used day (write s day key units now).1.rows ≤ used day s.rows + units
write-used s day key units now = elim (Bool-cases (is_some (fetchone (has_key day key) s.rows))) [
  | inl old ↦ unfold write in rw old (omega arith)
  | inr new ↦
      unfold write in
      rw new (rw (used-written day key day units now s.rows) (rw (eq_refl day) (omega arith)))
]

can_spend-le :
    (s : Budget) (day : String) (units : ℕ)
    → can_spend s day units ≡ true
    → units ≤ s.daily_cap - used day s.rows
can_spend-le s day units e = leb→le units _ (unfold can_spend in e)

can_spend-full :
    (s : Budget) (day : String) (units : ℕ)
    → s.daily_cap < used day s.rows + units
    → 0 < units
    → can_spend s day units ≡ false
can_spend-full s day units over some_units = unfold can_spend remaining in ground (arith, over)

spend-zero :
    (s : Budget) (day key : String) (units now : ℕ) (validated : Bool)
    → units ≡ 0
    → (spend s day key units validated now).1 ≡ s
unfolding spend
spend-zero s day key units now false e = refl
spend-zero s day key units now true e = rw e

-- `spend` writes or leaves the table
spend-or_same :
    (s : Budget) (day key : String) (units now : ℕ) (validated : Bool) (P : Budget → Type 0)
    → P s
    → P (write s day key units now).1
    → P (spend s day key units validated now).1
spend-or_same s day key units now false P h w = unfold spend in h
spend-or_same s day key units now true P h w = elim (Bool-cases (eqb units 0)) [
  | inl z ↦ unfold spend in rw z h
  | inr nz ↦ elim (Bool-cases (can_spend s day units)) [
    | inl room ↦ unfold spend in rw (nz, room) w
    | inr full ↦ unfold spend in rw (nz, full) h
  ]
]

spend-full :
    (s : Budget) (day key : String) (units now : ℕ) (validated : Bool)
    → can_spend s day units ≡ false
    → (spend s day key units validated now).1 ≡ s
spend-full s day key units now false full = unfold spend in refl
spend-full s day key units now true full = elim (Bool-cases (eqb units 0)) [
  | inl z ↦ unfold spend in rw z
  | inr nz ↦ unfold spend in rw (nz, full)
]

spend-le :
    (s : Budget) (day key : String) (units now : ℕ) (validated : Bool)
    → used day s.rows ≤ s.daily_cap
    → used day (write s day key units now).1.rows ≤ used day s.rows + units
    → used day (spend s day key units validated now).1.rows ≤ s.daily_cap
spend-le s day key units now validated h w = elim (Bool-cases (can_spend s day units)) [
  | inl room ↦
      let fits : used day (write s day key units now).1.rows ≤ s.daily_cap =
        omega (arith, can_spend-le s day units room) in
      spend-or_same s day key units now validated (λ b. used day b.rows ≤ s.daily_cap) h fits
  | inr full ↦ rw (spend-full s day key units now validated full) h
]

-- A `spend` that is not validated, that has no units, or that would pass the cap writes nothing.
pub spend_refused :
    (s : Budget) (day key : String) (units now : ℕ) (validated : Bool)
    → used day s.rows ≤ s.daily_cap
    → ((validated ≡ false) ⊎ (units ≡ 0)) ⊎ (s.daily_cap < used day s.rows + units)
    → (spend s day key units validated now).1 ≡ s
spend_refused s day key units now validated h (inl (inl e)) = unfold spend in rw e
spend_refused s day key units now validated h (inl (inr e)) =
    spend-zero s day key units now validated e
spend_refused s day key units now validated h (inr over) =
    spend-full s day key units now validated (can_spend-full s day units over (omega arith))

-- A `spend` that nothing interrupts keeps the day's use within the cap.
pub spend-within_cap :
    (s : Budget) (day key : String) (units now : ℕ) (validated : Bool)
    → used day s.rows ≤ s.daily_cap
    → used day (spend s day key units validated now).1.rows ≤ s.daily_cap
spend-within_cap s day key units now validated h =
    spend-le s day key units now validated h (write-used s day key units now)

-- a key that was not yet charged on the day
fetchone-other :
    (day k key : String) (units now : ℕ) (rows : List Spend)
    → k ≢ key
    → fetchone (has_key day key) rows ≡ none
    → fetchone
        (has_key day key)
        (rows ++ record { day = day; key = k; units = units; created_at = now } ∷ [])
      ≡ none
fetchone-other day k key units now rows ne new =
    rw (fetchone-append (has_key day key) rows)
      (rw new (unfold fetchone in ground (arith, eq_iff k key)))

write-eq :
    (s : Budget) (day key : String) (units now : ℕ)
    → fetchone (has_key day key) s.rows ≡ none
    → (write s day key units now).1 ≡ record s {
      rows = s.rows ++ record { day = day; key = key; units = units; created_at = now } ∷ [];
    }
unfolding write
write-eq s day key units now new = simp new

-- The check and the write of `spend` are not one step: two callers with different keys that both
-- pass the check before either writes exceed the cap, whenever the rest of the day's budget covers each
-- of their units but not both.
pub write-over_cap :
    (s : Budget) (day k key : String) (u v now : ℕ)
    → k ≢ key
    → fetchone (has_key day k) s.rows ≡ none
    → fetchone (has_key day key) s.rows ≡ none
    → can_spend s day u ≡ true
    → can_spend s day v ≡ true
    → s.daily_cap < used day s.rows + u + v
    → s.daily_cap < used day (write (write s day k u now).1 day key v now).1.rows
write-over_cap s day k key u v now ne new_k new_key check_u check_v over =
    let row : Spend = record { day = day; key = k; units = u; created_at = now } in
    let s' : Budget = record s { rows = s.rows ++ row ∷ [] } in
    rw (write-eq s day k u now new_k) (
      rw (write-eq s' day key v now (fetchone-other day k key u now s.rows ne new_key)) (
        rw (used-written day key day v now s'.rows)
          (rw (used-written day k day u now s.rows) (rw (eq_refl day) over))))
