-- ===== src/BoundedCache/Lookup.antt =====
-- What `get` of noesis_harness/bounded_cache.py finds after a `put`, and what the `put` evicts.
use noesis_harness_agent_mem.Table.Sorting.{head?}
use noesis_harness_agent_mem.Prelude.{
  ltb, if◌then◌else◌, is_some, Bool-cases, ltb→lt, length, ◌+◌, String, ◌≡◌, ap, ◌∙◌, ◌⊎◌, inl, inr,
  Bool, true, false, ◌||◌, Option, none, some, List, ◌∷◌, arith, ◌==◌, eq_iff, eq_refl,
}
use noesis_harness_agent_mem.Dict.{lookup, insert, remove, lookup-insert, lookup-remove}
use noesis_harness_agent_mem.BoundedCache.{BoundedCache, get, put}
use noesis_harness_agent_mem.BoundedCache.Eviction.{
  occurs, IsSound, put_old, put_room, put_full, nonempty,
}

-- the key that a `put` of `key` drops: the oldest, if `key` is new and the cache is full
pub victim {ℓ} : {V : Type ℓ} → BoundedCache V → String → Option String
victim c key =
    if is_some (lookup key c.store) || ltb (length c.order) c.maxsize then none else head? c.order

pub is_evicted : Option String → String → Bool
is_evicted none j = false
is_evicted (some o) j = o == j

module _ {ℓ} {V : Type ℓ} (c : BoundedCache V) (key : String) (v : V) (sound : IsSound c) where
  -- the oldest key is one that the store holds, so it is not the new one
  oldest_listed :
      (o : String) (os : List String) → c.order ≡ o ∷ os → is_some (lookup o c.store) ≡ true
  oldest_listed o os first =
      let own : occurs o c.order ≡ 1 + occurs o os =
        ap (occurs o) first ∙ (unfold occurs in rw eq_refl) in
      ground (arith, own, sound.listed o)

  victim_oldest :
      (o : String) (os : List String)
      → c.order ≡ o ∷ os
      → is_some (lookup key c.store) ≡ false
      → ltb (length c.order) c.maxsize ≡ false
      → victim c key ≡ some o
  unfolding victim
  victim_oldest o os first new full = rw (new, full) (ap head? first)

  victim-none :
      (is_some (lookup key c.store) ≡ true) ⊎ (ltb (length c.order) c.maxsize ≡ true)
      → victim c key ≡ none
  unfolding victim
  victim-none (inl old) = rw old
  victim-none (inr room) = elim (Bool-cases (is_some (lookup key c.store))) [
    | inl old ↦ rw old
    | inr new ↦ rw (new, room)
  ]

  dropped :
      (j o : String)
      → is_some (lookup key c.store) ≡ false
      → is_some (lookup o c.store) ≡ true
      → lookup j (remove o (insert key v c.store))
        ≡ (if key == j then some v else if o == j then none else lookup j c.store)
  dropped j o new held = elim (Bool-cases (key == j)) [
    | inl e ↦
        let apart : (o == j) ≡ false = ground (arith, new, held, eq_iff key j, eq_iff o j) in
        rw (lookup-remove o j (insert key v c.store))
          (rw (apart, e) (rw (lookup-insert key j v c.store) (rw e)))
    | inr e ↦
        rw (lookup-remove o j (insert key v c.store))
          (rw e (rw (lookup-insert key j v c.store) (rw e)))
  ]

  -- After a `put` of a key, `get` finds the value at it, nothing at the key that is evicted (the
  -- oldest, where the key is new and the cache is full), and what it found before at any other.
  pub get-put :
      (j : String)
      → get (put c key v) j
        ≡ (if key == j then some v else if is_evicted (victim c key) j then none else get c j)
  get-put j = elim (Bool-cases (is_some (lookup key c.store))) [
    | inl old ↦
        rw (put_old c key v old)
          (rw (victim-none (inl old)) (unfold get is_evicted in lookup-insert key j v c.store))
    | inr new ↦ elim (Bool-cases (ltb (length c.order) c.maxsize)) [
      | inl room ↦
          rw (put_room c key v new (ltb→lt _ _ room))
            (rw (victim-none (inr room)) (unfold get is_evicted in lookup-insert key j v c.store))
      | inr full ↦
          let (o, os, first) = nonempty c.order (ground (arith, sound.positive)) in
          let out : victim c key ≡ some o = victim_oldest o os first new full in
          rw (put_full c key v o os first new (ground arith))
            (rw out (unfold get is_evicted in dropped j o new (oldest_listed o os first)))
    ]
  ]
