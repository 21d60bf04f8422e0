-- ===== src/BoundedCache.antt =====
-- class BoundedCache of noesis_harness/bounded_cache.py: a FIFO cache. The lock makes each method one
-- step. `keys` and `__len__` are the field `order` and its length.
pub mod Eviction
pub mod Lookup
use noesis_harness_agent_mem.Prelude.{
  [], ok, err, ltb, if◌then◌else◌, is_some, length, Result, ℕ, String, Option, List, ◌∷◌, ◌++◌,
  ◌==◌,
}
use noesis_harness_agent_mem.Dict
use noesis_harness_agent_mem.Dict.{lookup, insert, remove}

pub record BoundedCache {ℓ} (V : Type ℓ) : Type ℓ where
  pub maxsize : ℕ
  pub store : List (String × V)
  pub order : List String

pub data Error : Type 0 where
  value_error : Error

-- self._order.remove(key): the first occurrence
unfoldable pub list_remove : String → List String → List String
list_remove k [] = []
list_remove k (j ∷ js) = let rest = j ∷ list_remove k js in if j == k then js else rest

module _ {ℓ} {V : Type ℓ} where
  unfoldable pub init : ℕ → Result Error (BoundedCache V)
  init maxsize =
      if ltb maxsize 1
      then err value_error
      else ok (record { maxsize = maxsize; store = []; order = [] })

  unfoldable pub get : BoundedCache V → String → Option V
  get c key = lookup key c.store

  -- pop(0), and the deletion of its key from the store
  unfoldable pub evict : ℕ → List (String × V) → List String → BoundedCache V
  evict n store [] = record { maxsize = n; store = store; order = [] }
  evict n store (oldest ∷ rest) = record { maxsize = n; store = remove oldest store; order = rest }

  unfoldable pub put : BoundedCache V → String → V → BoundedCache V
  put c key value =
      let store = insert key value c.store in
      let order = c.order ++ key ∷ [] in
      if is_some (lookup key c.store)
      then record c { store = store; order = list_remove key c.order ++ key ∷ [] }
      else if ltb c.maxsize (length order)
      then evict c.maxsize store order
      else record c { store = store; order = order }
