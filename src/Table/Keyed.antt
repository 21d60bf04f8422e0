-- ===== src/Table/Keyed.antt =====
-- Tables with a text key: rows that stand in the table, and keys that stand in it once.
use mathlib.Core.Path.{subst}
use noesis_harness_agent_mem.Table.Counting.{count-append, count-update, count-eq-zero_of_fetchone}
use noesis_harness_agent_mem.Prelude.{
  if◌then◌else◌, Bool-cases, take, All, ℕ, zero, suc, ◌+◌, ◌≤◌, ◌<◌, String, ◌≡◌, refl, ap, inl,
  inr, Bool, true, false, ◌&&◌, not, none, some, List, [], ◌∷◌, ◌++◌, arith, ◌==◌, eq_iff, eq_refl,
}
use noesis_harness_agent_mem.Table.Holding.{All-imp}
use noesis_harness_agent_mem.Table.{update, fetchone, count}

module _ {ℓ} {A : Type ℓ} (p : A → Bool) where
  pub All-of_count-zero : (rows : List A) → count p rows ≡ 0 → All (λ r. p r ≡ false) rows
  unfolding count
  All-of_count-zero [] h = tt
  All-of_count-zero (r ∷ rs) h = (ground arith, All-of_count-zero rs (ground arith))

  pub count-take-le : (n : ℕ) (rows : List A) → count p (take n rows) ≤ count p rows
  unfolding count
  count-take-le zero rows = omega arith
  count-take-le (suc n) [] = omega arith
  count-take-le (suc n) (r ∷ rs) = ground (arith, count-take-le n rs)

module _ {ℓ κ} {A : Type ℓ} (P : A → Type κ) where
  pub All-take : (n : ℕ) (rows : List A) → All P rows → All P (take n rows)
  All-take zero rows h = tt
  All-take (suc n) [] h = tt
  All-take (suc n) (r ∷ rs) h = (h.0, All-take n rs h.1)

module _ {ℓ} {A : Type ℓ} (key : A → String) (p : A → Bool) where
  pub member-pos :
      (rows : List A) → All (λ r. p r ≡ true → 0 < count (λ x. (key x == key r) && p x) rows) rows
  unfolding count
  member-pos [] = tt
  member-pos (r ∷ rs) = (
    λ h. ground (arith, h, eq_refl (key r)),
    All-imp (λ x h e. ground (arith, h e)) rs (member-pos rs),
  )

  count-split :
      (k : String) (rows : List A)
      → count (λ x. key x == k) rows
        ≡ count (λ x. (key x == k) && p x) rows + count (λ x. (key x == k) && not (p x)) rows
  unfolding count
  count-split k [] = omega arith
  count-split k (r ∷ rs) = ground (arith, count-split k rs)

  -- Where a key stands once, what holds of one of its rows holds of all.
  pub All-of_unique :
      (k : String) (rows : List A)
      → count (λ x. key x == k) rows ≤ 1
      → 0 < count (λ x. (key x == k) && p x) rows
      → All (λ x. (key x == k) ≡ true → p x ≡ true) rows
  All-of_unique k rows one pos =
      All-imp (λ x h e. ground (arith, h, e)) rows
        (All-of_count-zero (λ x. (key x == k) && not (p x)) rows
          (omega (arith, count-split k rows)))

module _ {ℓ} {A : Type ℓ} (key : A → String) where
  count-append_one :
      (k : String) (rows : List A) (r : A)
      → count (λ x. key x == k) (rows ++ r ∷ [])
        ≡ count (λ x. key x == k) rows + (if key r == k then 1 else 0)
  count-append_one k rows r =
      rw (count-append (λ x. key x == k) rows (r ∷ [])) (unfold count in refl)

  -- An INSERT at a key that no row has.
  pub append-keyed :
      (rows : List A) (r : A)
      → fetchone (λ x. key x == key r) rows ≡ none
      → ((k : String) → count (λ x. key x == k) rows ≤ 1)
      → (k : String) → count (λ x. key x == k) (rows ++ r ∷ []) ≤ 1
  append-keyed rows r new one k = elim (Bool-cases (key r == k)) [
    | inr other ↦ rw (count-append_one k rows r) (rw other (omega (arith, one k)))
    | inl same ↦ rw (count-append_one k rows r) (
        rw same (
          omega (
            arith,
            subst (λ j. count (λ x. key x == j) rows ≡ 0) ((eq_iff (key r) k).0 same)
                (count-eq-zero_of_fetchone (λ x. key x == key r) rows new),
          )))
  ]

  -- An UPDATE that leaves the keys alone.
  pub update-keyed :
      (q : A → Bool) (f : A → A) (rows : List A) (k : String)
      → ((r : A) → key (f r) ≡ key r)
      → count (λ x. key x == k) (update q f rows) ≡ count (λ x. key x == k) rows
  update-keyed q f rows k same =
      count-update (λ x. key x == k) q f rows (λ r _. ap (λ j. j == k) (same r))

module _ {ℓ} {A : Type ℓ} (key : A → String) (p : A → Bool) where
  fetched-pos :
      (k : String) (rows : List A) (r : A)
      → fetchone (λ x. key x == k) rows ≡ some r
      → p r ≡ true
      → 0 < count (λ x. (key x == k) && p x) rows
  unfolding fetchone count
  fetched-pos k [] r f h = cc
  fetched-pos k (x ∷ xs) r f h = ground (arith, f, h, fetched-pos k xs r)

  -- What holds of the row that is fetched at a unique key holds of every row at the key.
  pub All-of_fetched :
      (k : String) (rows : List A) (r : A)
      → fetchone (λ x. key x == k) rows ≡ some r
      → p r ≡ true
      → count (λ x. key x == k) rows ≤ 1
      → All (λ x. (key x == k) ≡ true → p x ≡ true) rows
  All-of_fetched k rows r f h one = All-of_unique key p k rows one (fetched-pos k rows r f h)
