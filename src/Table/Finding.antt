-- ===== src/Table/Finding.antt =====
-- What `fetchone` returns after the other statements.
use mathlib.Core.Option
use noesis_harness_agent_mem.Prelude.{
  ◌≡◌, refl, Bool, true, false, none, some, List, [], ◌∷◌, ◌++◌, arith, if◌then◌else◌, or_else,
}
use noesis_harness_agent_mem.Table.{fetchone, update, delete}

-- the row as an UPDATE leaves it
abbrev pub updated {ℓ} : {A : Type ℓ} → (A → Bool) → (A → A) → A → A
updated q f r = if q r then f r else r

module _ {ℓ} {A : Type ℓ} (p : A → Bool) where
  pub fetchone_sound : (rows : List A) (r : A) → fetchone p rows ≡ some r → p r ≡ true
  unfolding fetchone
  fetchone_sound [] r h = ground arith
  fetchone_sound (x ∷ xs) r h = ground (arith, fetchone_sound xs r)

  pub fetchone-append :
      (xs ys : List A) → fetchone p (xs ++ ys) ≡ or_else (fetchone p xs) (fetchone p ys)
  unfolding fetchone
  fetchone-append [] ys = refl
  fetchone-append (x ∷ xs) ys = ground (arith, fetchone-append xs ys)

  -- An UPDATE that keeps `p` on the rows that it touches shows in the fetched row alone.
  pub fetchone-update :
      (q : A → Bool) (f : A → A) (rows : List A)
      → ((r : A) → q r ≡ true → p (f r) ≡ p r)
      → fetchone p (update q f rows) ≡ Option.map (updated q f) (fetchone p rows)
  unfolding fetchone update
  fetchone-update q f [] keep = refl
  fetchone-update q f (r ∷ rs) keep = ground (arith, keep r, fetchone-update q f rs keep)

  pub fetchone-delete :
      (q : A → Bool) (rows : List A)
      → ((r : A) → q r ≡ true → p r ≡ false)
      → fetchone p (delete q rows) ≡ fetchone p rows
  unfolding fetchone delete
  fetchone-delete q [] keep = refl
  fetchone-delete q (r ∷ rs) keep = ground (arith, keep r, fetchone-delete q rs keep)

  pub fetchone-delete_self : (rows : List A) → fetchone p (delete p rows) ≡ none
  unfolding fetchone delete
  fetchone-delete_self [] = refl
  fetchone-delete_self (r ∷ rs) = ground (arith, fetchone-delete_self rs)
