-- ===== src/Table/Sorting.antt =====
-- ORDER BY returns the rows of the table, and its first row is the least.
use mathlib.Core.Path.{subst}
use mathlib.Core.Option.{some-injective}
use noesis_harness_agent_mem.Prelude.{
  ◌∙◌, ◌≡◌, refl, Bool, true, false, Option, none, some, List, [], ◌∷◌, arith, All, Bool-cases, inl,
  inr,
}
use noesis_harness_agent_mem.Table.{insert_by, order_by, count}

abbrev pub head? {ℓ} : {A : Type ℓ} → List A → Option A
head? [] = none
head? (x ∷ xs) = some x

module _ {ℓ} {A : Type ℓ} (le : A → A → Bool) where
  count-insert_by :
      (p : A → Bool) (a : A) (rs : List A) → count p (insert_by le a rs) ≡ count p (a ∷ rs)
  unfolding count insert_by
  count-insert_by p a [] = refl
  count-insert_by p a (r ∷ rs) = ground (arith, count-insert_by p a rs)

  count-cons :
      (p : A → Bool) (r : A) (xs ys : List A)
      → count p xs ≡ count p ys
      → count p (r ∷ xs) ≡ count p (r ∷ ys)
  unfolding count
  count-cons p r xs ys e = ground arith

  -- ORDER BY drops and invents no row.
  pub count-order_by : (p : A → Bool) (rs : List A) → count p (order_by le rs) ≡ count p rs
  unfolding order_by
  count-order_by p [] = refl
  count-order_by p (r ∷ rs) =
      count-insert_by p r (order_by le rs) ∙ count-cons p r _ _ (count-order_by p rs)

  module _ {κ} (P : A → Type κ) where
    All-insert_by : (a : A) (rs : List A) → P a → All P rs → All P (insert_by le a rs)
    unfolding insert_by
    All-insert_by a [] h hs = (h, hs)
    All-insert_by a (r ∷ rs) h hs = elim (Bool-cases (le a r)) [
      | inl e ↦ rw e (h, hs)
      | inr e ↦ rw e (hs.0, All-insert_by a rs h hs.1)
    ]

    pub All-order_by : (rs : List A) → All P rs → All P (order_by le rs)
    unfolding order_by
    All-order_by [] h = h
    All-order_by (r ∷ rs) h = All-insert_by r (order_by le rs) h.0 (All-order_by rs h.1)

  -- the head bounds every other row from below
  abbrev Least : List A → Type 0
  Least [] = Unit
  Least (a ∷ rs) = All (λ r. le a r ≡ true) (a ∷ rs)

  module _ (total : (a b : A) → le a b ≡ false → le b a ≡ true)
      (trans : (a b c : A) → le a b ≡ true → le b c ≡ true → le a c ≡ true) where
    le_refl : (a : A) → le a a ≡ true
    le_refl a = elim (Bool-cases (le a a)) [ inl e ↦ e | inr e ↦ total a a e ]

    All-trans :
        (a b : A) (rs : List A)
        → le a b ≡ true
        → All (λ r. le b r ≡ true) rs
        → All (λ r. le a r ≡ true) rs
    All-trans a b [] e h = h
    All-trans a b (r ∷ rs) e h = (trans a b r e h.0, All-trans a b rs e h.1)

    Least-insert_by : (a : A) (rs : List A) → Least rs → Least (insert_by le a rs)
    unfolding insert_by
    Least-insert_by a [] h = (le_refl a, tt)
    Least-insert_by a (r ∷ rs) h = elim (Bool-cases (le a r)) [
      | inl e ↦ rw e (le_refl a, All-trans a r (r ∷ rs) e h)
      | inr e ↦ rw e (le_refl r, All-insert_by (λ x. le r x ≡ true) a rs (total a r e) h.1)
    ]

    Least-order_by : (rs : List A) → Least (order_by le rs)
    unfolding order_by
    Least-order_by [] = tt
    Least-order_by (r ∷ rs) = Least-insert_by r (order_by le rs) (Least-order_by rs)

  module _ {κ} (P : A → Type κ) where
    All-of_insert_by : (a : A) (rs : List A) → All P (insert_by le a rs) → P a × All P rs
    unfolding insert_by
    All-of_insert_by a [] h = (h.0, h.1)
    All-of_insert_by a (r ∷ rs) h = elim (Bool-cases (le a r)) [
      | inl e ↦ let k : All P (a ∷ r ∷ rs) = rw e at h in (k.0, k.1)
      | inr e ↦
          let k : All P (r ∷ insert_by le a rs) = rw e at h in
          let (here, rest) = All-of_insert_by a rs k.1 in (here, (k.0, rest))
    ]

    All-of_order_by : (rs : List A) → All P (order_by le rs) → All P rs
    unfolding order_by
    All-of_order_by [] h = h
    All-of_order_by (r ∷ rs) h =
        let (here, rest) = All-of_insert_by r (order_by le rs) h in (here, All-of_order_by rs rest)

  module _ (total : (a b : A) → le a b ≡ false → le b a ≡ true)
      (trans : (a b c : A) → le a b ≡ true → le b c ≡ true → le a c ≡ true) where
    Least-head : (a : A) (rs : List A) → Least rs → head? rs ≡ some a → All (λ r. le a r ≡ true) rs
    Least-head a [] h e = tt
    Least-head a (r ∷ rs) h e =
        subst (λ x. All (λ y. le x y ≡ true) (r ∷ rs)) (some-injective r a e) h

    -- The first row of ORDER BY is at most any row of the table.
    pub head-order_by :
        (a : A) (rs : List A) → head? (order_by le rs) ≡ some a → All (λ r. le a r ≡ true) rs
    head-order_by a rs e =
        All-of_order_by (λ r. le a r ≡ true) rs
          (Least-head a (order_by le rs) (Least-order_by total trans rs) e)

  pub order_by-nil : order_by le [] ≡ []
  unfolding order_by
  order_by-nil = refl
