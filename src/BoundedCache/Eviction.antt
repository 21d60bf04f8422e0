-- ===== src/BoundedCache/Eviction.antt =====
-- The invariant of BoundedCache (noesis_harness/bounded_cache.py) under `put`.

use noesis_harness_agent_mem.Prelude.{
  ltb, if◌then◌else◌, is_some, Bool-cases, ltb→lt, length, length-append, ℕ, suc, ◌+◌, ◌-◌, ◌≤◌,
  ◌<◌, String, ◌≡◌, refl, ap, ◌∙◌, inl, inr, true, false, List, [], ◌∷◌, ◌++◌, arith, ◌==◌, eq_iff,
  eq_refl,
}
use noesis_harness_agent_mem.Dict.{lookup, insert, remove, lookup-insert, lookup-remove}
use noesis_harness_agent_mem.BoundedCache.{BoundedCache, list_remove, put, evict}

unfoldable pub occurs : String → List String → ℕ
occurs k [] = 0
occurs k (j ∷ js) = (if j == k then 1 else 0) + occurs k js

occurs-append : (k : String) (xs ys : List String) → occurs k (xs ++ ys) ≡ occurs k xs + occurs k ys
unfolding occurs
occurs-append k [] ys = omega arith
occurs-append k (x ∷ xs) ys = omega (arith, occurs-append k xs ys)

occurs-append_one :
    (k j : String) (xs : List String)
    → occurs k (xs ++ j ∷ []) ≡ occurs k xs + (if j == k then 1 else 0)
unfolding occurs
occurs-append_one k j xs = omega (arith, occurs-append k xs (j ∷ []))

occurs-list_remove :
    (k j : String) (xs : List String)
    → occurs j (list_remove k xs) ≡ occurs j xs - (if k == j then 1 else 0)
unfolding occurs list_remove
occurs-list_remove k j [] = omega arith
occurs-list_remove k j (x ∷ xs) =
    ground (arith, eq_iff x k, eq_iff x j, eq_iff k j, occurs-list_remove k j xs)

length-list_remove :
    (k : String) (xs : List String) → 0 < occurs k xs → length (list_remove k xs) + 1 ≡ length xs
unfolding occurs list_remove
length-list_remove k [] h = absurd (omega arith)
length-list_remove k (x ∷ xs) h = ground (arith, length-list_remove k xs)

length-one : (k : String) → length (k ∷ []) ≡ 1
length-one k = refl

length-cons : (k : String) (ks : List String) → length (k ∷ ks) ≡ suc (length ks)
length-cons k ks = refl

-- The order lists each key of the store exactly once, and nothing else; it is not longer than the bound.
pub record IsSound {ℓ} {V : Type ℓ} (c : BoundedCache V) : Type 0 where
  pub positive : 1 ≤ c.maxsize
  pub bounded : length c.order ≤ c.maxsize
  pub listed : (k : String) → occurs k c.order ≡ (if is_some (lookup k c.store) then 1 else 0)

module _ {ℓ} {V : Type ℓ} (c : BoundedCache V) (key : String) (v : V) where
  pub put_old :
      is_some (lookup key c.store) ≡ true
      → put c key v
        ≡ record c { store = insert key v c.store; order = list_remove key c.order ++ key ∷ [] }
  unfolding put
  put_old old = simp old

  pub put_room :
      is_some (lookup key c.store) ≡ false
      → length c.order < c.maxsize
      → put c key v ≡ record c { store = insert key v c.store; order = c.order ++ key ∷ [] }
  put_room new room =
      let short : ltb c.maxsize (length (c.order ++ key ∷ [])) ≡ false =
        ground (arith, length-append c.order (key ∷ [])) in
      unfold put in rw new (rw short)

  pub put_full :
      (o : String) (os : List String)
      → c.order ≡ o ∷ os
      → is_some (lookup key c.store) ≡ false
      → c.maxsize ≤ length c.order
      → put c key v ≡ record c { store = remove o (insert key v c.store); order = os ++ key ∷ [] }
  put_full o os first new full =
      let long : ltb c.maxsize (length (c.order ++ key ∷ [])) ≡ true =
        ground (arith, length-append c.order (key ∷ [])) in
      let shape : c.order ++ key ∷ [] ≡ o ∷ (os ++ key ∷ []) =
        ap (λ (l : List String). l ++ key ∷ []) first in
      unfold put in rw new (rw long (rw shape (unfold evict in refl)))

abbrev pub Nonempty : List String → Type 0
Nonempty xs = (o : String) × (os : List String) × (xs ≡ o ∷ os)

pub nonempty : (xs : List String) → 0 < length xs → Nonempty xs
nonempty [] h = absurd (omega arith)
nonempty (x ∷ xs) h = (x, xs, refl)

module _ {ℓ} {V : Type ℓ} (c : BoundedCache V) (key : String) (v : V) (sound : IsSound c) where
  -- the three branches keep the listing
  listed_old :
      (k : String)
      → is_some (lookup key c.store) ≡ true
      → occurs k (list_remove key c.order ++ key ∷ [])
        ≡ (if is_some (lookup k (insert key v c.store)) then 1 else 0)
  listed_old k old = ground (
    arith,
    old,
    eq_iff key k,
    occurs-append_one k key (list_remove key c.order),
    occurs-list_remove key k c.order,
    sound.listed k,
    sound.listed key,
    lookup-insert key k v c.store,
  )

  listed_room :
      (k : String)
      → is_some (lookup key c.store) ≡ false
      → occurs k (c.order ++ key ∷ [])
        ≡ (if is_some (lookup k (insert key v c.store)) then 1 else 0)
  listed_room k new = ground (
    arith,
    new,
    eq_iff key k,
    occurs-append_one k key c.order,
    sound.listed k,
    lookup-insert key k v c.store,
  )

  listed_full :
      (o : String) (os : List String) (k : String)
      → c.order ≡ o ∷ os
      → is_some (lookup key c.store) ≡ false
      → occurs k (os ++ key ∷ [])
        ≡ (if is_some (lookup k (remove o (insert key v c.store))) then 1 else 0)
  listed_full o os k first new =
      let total : occurs k c.order ≡ (if o == k then 1 else 0) + occurs k os =
        ap (occurs k) first ∙ (unfold occurs in refl) in
      let own : occurs o c.order ≡ 1 + occurs o os =
        ap (occurs o) first ∙ (unfold occurs in rw eq_refl) in
      ground (
        arith,
        new,
        total,
        own,
        eq_iff key k,
        eq_iff o k,
        eq_iff key o,
        occurs-append_one k key os,
        sound.listed k,
        sound.listed o,
        lookup-remove o k (insert key v c.store),
        lookup-insert key k v c.store,
      )

  short_old :
      is_some (lookup key c.store) ≡ true → length (list_remove key c.order ++ key ∷ []) ≤ c.maxsize
  short_old old =
      let listed : occurs key c.order ≡ 1 = sound.listed key ∙ (rw old) in
      omega (
        arith,
        length-append (list_remove key c.order) (key ∷ []),
        length-one key,
        length-list_remove key c.order (omega (arith, listed)),
        sound.bounded,
      )

  -- A `put` keeps the order and the store in step, each key once, within the bound.
  pub put-IsSound : IsSound (put c key v)
  put-IsSound = elim (Bool-cases (is_some (lookup key c.store))) [
    | inl old ↦ rw (put_old c key v old) (record {
      positive = sound.positive;
      bounded = short_old old;
      listed = λ k. listed_old k old;
    })
    | inr new ↦ elim (Bool-cases (ltb (length c.order) c.maxsize)) [
      | inl room ↦ rw (put_room c key v new (ltb→lt _ _ room)) (record {
        positive = sound.positive;
        bounded = ground (arith, length-append c.order (key ∷ []));
        listed = λ k. listed_room k new;
      })
      | inr full ↦
          let le : c.maxsize ≤ length c.order = ground arith in
          let (o, os, first) = nonempty c.order (omega (arith, sound.positive)) in
          rw (put_full c key v o os first new le) (record {
            positive = sound.positive;
            bounded = omega (
              arith,
              length-append os (key ∷ []),
              ap length first,
              length-one key,
              length-cons o os,
              sound.bounded,
            );
            listed = λ k. listed_full o os k first new;
          })
    ]
  ]
