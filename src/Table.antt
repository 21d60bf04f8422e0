-- ===== src/Table.antt =====
-- SQL tables as lists of rows in order of insertion, with the statements that the stores issue:
-- SELECT (all rows, or `fetchone`), UPDATE, DELETE, COUNT and ORDER BY.
pub mod Counting
pub mod Finding
pub mod Holding
pub mod Sorting
pub mod Keyed
use noesis_harness_agent_mem.Prelude.{
  ℕ, suc, Bool, true, false, Option, none, some, List, [], ◌∷◌, if◌then◌else◌,
}

module _ {ℓ} {A : Type ℓ} where
  -- SELECT * FROM t WHERE p
  unfoldable pub select : (A → Bool) → List A → List A
  select p [] = []
  select p (r ∷ rs) = let rest = select p rs in if p r then r ∷ rest else rest

  -- SELECT * FROM t WHERE p, then fetchone()
  unfoldable pub fetchone : (A → Bool) → List A → Option A
  fetchone p [] = none
  fetchone p (r ∷ rs) = let rest = fetchone p rs in if p r then some r else rest

  -- SELECT COUNT(*) FROM t WHERE p; also the `rowcount` of an UPDATE or DELETE on `p`
  unfoldable pub count : (A → Bool) → List A → ℕ
  count p [] = 0
  count p (r ∷ rs) = let rest = count p rs in if p r then suc rest else rest

  -- UPDATE t SET f WHERE p
  unfoldable pub update : (A → Bool) → (A → A) → List A → List A
  update p f [] = []
  update p f (r ∷ rs) = (if p r then f r else r) ∷ update p f rs

  -- DELETE FROM t WHERE p
  unfoldable pub delete : (A → Bool) → List A → List A
  delete p [] = []
  delete p (r ∷ rs) = let rest = delete p rs in if p r then rest else r ∷ rest

  unfoldable pub insert_by : (A → A → Bool) → A → List A → List A
  insert_by le a [] = a ∷ []
  insert_by le a (r ∷ rs) =
      let later = r ∷ insert_by le a rs in if le a r then a ∷ r ∷ rs else later

  -- ORDER BY `le`; rows that tie stay in table order
  unfoldable pub order_by : (A → A → Bool) → List A → List A
  unfolding insert_by
  order_by le [] = []
  order_by le (r ∷ rs) = insert_by le r (order_by le rs)
