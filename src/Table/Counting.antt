-- ===== src/Table/Counting.antt =====
-- How COUNT changes under the other statements.
use noesis_harness_agent_mem.Prelude.{
  ◌+◌, ◌≤◌, ◌≡◌, ◌&&◌, refl, Bool, true, none, List, [], ◌∷◌, ◌++◌, arith, length,
}
use noesis_harness_agent_mem.Table.{select, fetchone, count, update, delete}

module _ {ℓ} {A : Type ℓ} (p : A → Bool) where
  pub count-append : (xs ys : List A) → count p (xs ++ ys) ≡ count p xs + count p ys
  unfolding count
  count-append [] ys = omega arith
  count-append (x ∷ xs) ys = ground (arith, count-append xs ys)

  -- An UPDATE that keeps `p` on the rows that it touches keeps the number of rows with `p`.
  pub count-update :
      (q : A → Bool) (f : A → A) (rows : List A)
      → ((r : A) → q r ≡ true → p (f r) ≡ p r)
      → count p (update q f rows) ≡ count p rows
  unfolding count update
  count-update q f [] keep = refl
  count-update q f (r ∷ rs) keep = ground (arith, keep r, count-update q f rs keep)

  pub count-update-le :
      (q : A → Bool) (f : A → A) (rows : List A)
      → ((r : A) → q r ≡ true → p (f r) ≡ true → p r ≡ true)
      → count p (update q f rows) ≤ count p rows
  unfolding count update
  count-update-le q f [] keep = omega arith
  count-update-le q f (r ∷ rs) keep = ground (arith, keep r, count-update-le q f rs keep)

  pub count-delete-le : (q : A → Bool) (rows : List A) → count p (delete q rows) ≤ count p rows
  unfolding count delete
  count-delete-le q [] = omega arith
  count-delete-le q (r ∷ rs) = ground (arith, count-delete-le q rs)

  pub count-delete_self : (rows : List A) → count p (delete p rows) ≡ 0
  unfolding count delete
  count-delete_self [] = refl
  count-delete_self (r ∷ rs) = ground (arith, count-delete_self rs)

  pub count-eq-zero_of_fetchone : (rows : List A) → fetchone p rows ≡ none → count p rows ≡ 0
  unfolding count fetchone
  count-eq-zero_of_fetchone [] h = refl
  count-eq-zero_of_fetchone (r ∷ rs) h = ground (arith, count-eq-zero_of_fetchone rs)

  pub fetchone-eq-none_of_count : (rows : List A) → count p rows ≡ 0 → fetchone p rows ≡ none
  unfolding count fetchone
  fetchone-eq-none_of_count [] h = refl
  fetchone-eq-none_of_count (r ∷ rs) h = ground (arith, fetchone-eq-none_of_count rs)

  pub length-select : (rows : List A) → length (select p rows) ≡ count p rows
  unfolding count select
  length-select [] = refl
  length-select (r ∷ rs) = ground (arith, length-select rs)

module _ {ℓ} {A : Type ℓ} (p : A → Bool) where
  pub count-select :
      (q : A → Bool) (rows : List A) → count p (select q rows) ≡ count (λ r. q r && p r) rows
  unfolding count select
  count-select q [] = refl
  count-select q (r ∷ rs) = ground (arith, count-select q rs)

  pub count-imp-le :
      (q : A → Bool) (rows : List A)
      → ((r : A) → p r ≡ true → q r ≡ true)
      → count p rows ≤ count q rows
  unfolding count
  count-imp-le q [] imp = omega arith
  count-imp-le q (r ∷ rs) imp = ground (arith, imp r, count-imp-le q rs imp)

module _ {ℓ} {A : Type ℓ} (p : A → Bool) where
  pub count-tail-le : (r : A) (rows : List A) → count p rows ≤ count p (r ∷ rows)
  unfolding count
  count-tail-le r rows = ground arith

  pub count-cons_self : (r : A) (rows : List A) → p r ≡ true → count p (r ∷ rows) ≡ count p rows + 1
  unfolding count
  count-cons_self r rows e = ground arith

  pub count-single : (r : A) → count p (r ∷ []) ≤ 1
  unfolding count
  count-single r = ground arith
