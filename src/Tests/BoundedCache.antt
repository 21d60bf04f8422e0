-- ===== src/Tests/BoundedCache.antt =====
-- The cache of noesis_harness/bounded_cache.py on concrete inputs.
use noesis_harness_agent_mem.Prelude.{ok, ℕ, ◌≡◌, refl, none, some, [], arith}
use noesis_harness_agent_mem.Dict.{lookup, insert, remove}
use noesis_harness_agent_mem.BoundedCache.{BoundedCache, init, get, put, evict, list_remove}
use noesis_harness_agent_mem.BoundedCache.Eviction.{IsSound, occurs, put-IsSound}

program : Unit {0}
unfolding lookup insert remove get put evict list_remove occurs init
program = tt

abbrev empty : BoundedCache ℕ
empty = record { maxsize = 2; store = []; order = [] }

made : init {V = ℕ} 2 ≡ ok empty
unfolding program
made = refl

empty-IsSound : IsSound empty
unfolding program
empty-IsSound = record { positive = omega arith; bounded = omega arith; listed = λ k. refl }

abbrev one : BoundedCache ℕ
one = put empty "a" 1

abbrev full : BoundedCache ℕ
full = put one "b" 2

full-IsSound : IsSound full
full-IsSound = put-IsSound one "b" 2 (put-IsSound empty "a" 1 empty-IsSound)

put-IsSound_example : IsSound (put full "c" 3)
put-IsSound_example = put-IsSound full "c" 3 full-IsSound

oldest_gone : (get (put full "c" 3) "a" ≡ none) × (get (put full "a" 3) "b" ≡ some 2)
unfolding program
oldest_gone = (refl, refl)
