-- ===== src/Table/Holding.antt =====
-- Predicates that hold of every row, statement by statement.
use mathlib.Core.Path.{subst}
use mathlib.Core.Option.{some-injective}
use noesis_harness_agent_mem.Prelude.{
  ◌≡◌, refl, if◌then◌else◌, Bool, true, some, List, [], ◌∷◌, ◌++◌, All, Bool-cases, inl, inr, false,
}
use noesis_harness_agent_mem.Table.{select, fetchone, update, delete}

module _ {ℓ κ} {A : Type ℓ} (P : A → Type κ) where
  pub All-append : (xs ys : List A) → All P xs → All P ys → All P (xs ++ ys)
  All-append [] ys hx hy = hy
  All-append (x ∷ xs) ys hx hy = (hx.0, All-append xs ys hx.1 hy)

  pub All-fetchone :
      (p : A → Bool) (rows : List A) (r : A) → All P rows → fetchone p rows ≡ some r → P r
  unfolding fetchone
  All-fetchone p [] r h e = cc
  All-fetchone p (x ∷ xs) r h e = elim (Bool-cases (p x)) [
    | inl ex ↦ subst P (some-injective _ _ (rw ex at e)) h.0
    | inr ex ↦ All-fetchone p xs r h.1 (rw ex at e)
  ]

  pub All-update :
      (q : A → Bool) (f : A → A) (rows : List A)
      → ((r : A) → q r ≡ true → P r → P (f r))
      → All P rows
      → All P (update q f rows)
  unfolding update
  All-update q f [] keep h = h
  All-update q f (r ∷ rs) keep h = elim (Bool-cases (q r)) [
    | inl e ↦ rw e (keep r e h.0, All-update q f rs keep h.1)
    | inr e ↦ rw e (h.0, All-update q f rs keep h.1)
  ]

  pub All-delete : (q : A → Bool) (rows : List A) → All P rows → All P (delete q rows)
  unfolding delete
  All-delete q [] h = h
  All-delete q (r ∷ rs) h = elim (Bool-cases (q r)) [
    | inl e ↦ rw e (All-delete q rs h.1)
    | inr e ↦ rw e (h.0, All-delete q rs h.1)
  ]

  pub All-select : (q : A → Bool) (rows : List A) → All P rows → All P (select q rows)
  unfolding select
  All-select q [] h = h
  All-select q (r ∷ rs) h = elim (Bool-cases (q r)) [
    | inl e ↦ rw e (h.0, All-select q rs h.1)
    | inr e ↦ rw e (All-select q rs h.1)
  ]

module _ {ℓ κ ι} {A : Type ℓ} {P : A → Type κ} {Q : A → Type ι} where
  pub All-imp : ((r : A) → P r → Q r) → (rows : List A) → All P rows → All Q rows
  All-imp f [] h = tt
  All-imp f (r ∷ rs) h = (f r h.0, All-imp f rs h.1)

module _ {ℓ κ} {A : Type ℓ} (P : A → Type κ) where
  -- An UPDATE, row by row.
  pub All-updated :
      (q : A → Bool) (f : A → A) (rows : List A)
      → All (λ r. P (if q r then f r else r)) rows
      → All P (update q f rows)
  unfolding update
  All-updated q f [] h = h
  All-updated q f (r ∷ rs) h = (h.0, All-updated q f rs h.1)

  -- the rows that a SELECT keeps
  pub All-selected :
      (p : A → Bool) (rows : List A) → All (λ r. p r ≡ true → P r) rows → All P (select p rows)
  unfolding select
  All-selected p [] h = h
  All-selected p (r ∷ rs) h = elim (Bool-cases (p r)) [
    | inl e ↦ rw e (h.0 e, All-selected p rs h.1)
    | inr e ↦ rw e (All-selected p rs h.1)
  ]

module _ {ℓ} {A : Type ℓ} (p : A → Bool) where
  pub select-eq-nil : (rows : List A) → All (λ r. p r ≡ false) rows → select p rows ≡ []
  unfolding select
  select-eq-nil [] h = refl
  select-eq-nil (r ∷ rs) h = rw h.0 (select-eq-nil rs h.1)

module _ {ℓ κ ι} {A : Type ℓ} (P : A → Type κ) (Q : A → Type ι) where
  pub All-both : (rows : List A) → All P rows → All Q rows → All (λ r. P r × Q r) rows
  All-both [] h k = tt
  All-both (r ∷ rs) h k = ((h.0, k.0), All-both rs h.1 k.1)
