-- ===== src/HashChain/Tampering.antt =====
-- What `verify` of noesis_harness/merkle_chain.py accepts.
use mathlib.Core.List.{append-nil, append_assoc}
use noesis_harness_agent_mem.Prelude.{
  Bool-cases, length, String, ◌≡◌, refl, sym, ap, ap₂, ◌∙◌, ◌⊎◌, inl, inr, true, false, ◌&&◌, List,
  [], ◌∷◌, ◌++◌, map, arith, ◌==◌, eq_iff, eq_refl,
}
use noesis_harness_agent_mem.HashChain.{
  Entry, HashChain, zero_digest, init, new_entry, append, verify_from, verify, append_all,
}

abbrev pub payloads : List Entry → List String
payloads = map (λ e. e.payload)

-- the digest that the entry after these chains off
unfoldable pub last_digest : String → List Entry → String
last_digest prev [] = prev
last_digest prev (e ∷ es) = last_digest e.self_digest es

last_digest-append :
    (prev : String) (es : List Entry) (e : Entry) → last_digest prev (es ++ e ∷ []) ≡ e.self_digest
unfolding last_digest
last_digest-append prev [] e = refl
last_digest-append prev (x ∷ es) e = last_digest-append x.self_digest es e

payloads-append :
    (es : List Entry) (e : Entry) → payloads (es ++ e ∷ []) ≡ payloads es ++ e.payload ∷ []
payloads-append [] e = refl
payloads-append (x ∷ es) e = ap (λ ps. x.payload ∷ ps) (payloads-append es e)

module _ (digest : String → String → String) where
  verify_from-append :
      (prev : String) (es : List Entry) (e : Entry)
      → verify_from digest prev es ≡ true
      → digest (last_digest prev es) e.payload ≡ e.self_digest
      → e.prev_digest ≡ last_digest prev es
      → verify_from digest prev (es ++ e ∷ []) ≡ true
  unfolding verify_from last_digest
  verify_from-append prev [] e h own back = rw own (rw back (rw eq_refl (rw eq_refl)))
  verify_from-append prev (x ∷ es) e h own back =
      ground (arith, h, verify_from-append x.self_digest es e)

  -- the chain verifies, and its head is the digest of its last entry
  pub record IsIntact (c : HashChain) : Type 0 where
    pub verified : verify digest c ≡ true
    pub headed : c.head ≡ last_digest zero_digest c.entries

  append-IsIntact : (c : HashChain) (p : String) → IsIntact c → IsIntact (append digest c p).1
  unfolding append
  append-IsIntact c p v =
      let h : verify_from digest zero_digest c.entries ≡ true = unfold verify in v.verified in
      record {
        verified =
            unfold verify in
            verify_from-append zero_digest c.entries _ h (ap (λ d. digest d p) (sym v.headed))
              v.headed;
        headed = sym (last_digest-append zero_digest c.entries (new_entry digest c.head p));
      }

  append_all-IsIntact :
      (c : HashChain) (ps : List String) → IsIntact c → IsIntact (append_all digest c ps)
  unfolding append_all
  append_all-IsIntact c [] v = v
  append_all-IsIntact c (p ∷ ps) v =
      append_all-IsIntact (append digest c p).1 ps (append-IsIntact c p v)

  append_all-payloads :
      (c : HashChain) (ps : List String)
      → payloads (append_all digest c ps).entries ≡ payloads c.entries ++ ps
  unfolding append_all append
  append_all-payloads c [] = sym (append-nil _)
  append_all-payloads c (p ∷ ps) =
      append_all-payloads (append digest c p).1 ps
      ∙ ap (λ (l : List String). l ++ ps) (payloads-append c.entries (new_entry digest c.head p))
      ∙ append_assoc (payloads c.entries) (p ∷ []) ps

  init-IsIntact : IsIntact init
  unfolding init verify verify_from last_digest
  init-IsIntact = record { verified = refl; headed = refl }

  -- A chain that was built by `append` verifies, holds the appended payloads in their order, and has
  -- the digest of its last entry as its head.
  pub append_all-verified :
      (ps : List String)
      → (verify digest (append_all digest init ps) ≡ true)
        × (payloads (append_all digest init ps).entries ≡ ps)
        × ((append_all digest init ps).head
            ≡ last_digest zero_digest (append_all digest init ps).entries)
  append_all-verified ps =
      let v = append_all-IsIntact init ps init-IsIntact in
      (v.verified, append_all-payloads init ps ∙ (unfold init in refl), v.headed)

  -- two different inputs with one digest
  abbrev pub Collision : Type 0
  Collision =
      (d : String) × (e : String) × (p : String) × (q : String) × (digest d p ≡ digest e q)
      × (((d == e) && (p == q)) ≡ false)

  same_input : (d e p q : String) → digest d p ≡ digest e q → ((d ≡ e) × (p ≡ q)) ⊎ Collision
  same_input d e p q same = elim (Bool-cases ((d == e) && (p == q))) [
    | inl h ↦ inl (ground (arith, h, eq_iff d e), ground (arith, h, eq_iff p q))
    | inr h ↦ inr (d, e, p, q, same, h)
  ]

  links :
      (prev : String) (e : Entry) (es : List Entry)
      → verify_from digest prev (e ∷ es) ≡ true
      → (digest prev e.payload ≡ e.self_digest) × (verify_from digest e.self_digest es ≡ true)
  unfolding verify_from
  links prev e es h =
      (ground (arith, h, eq_iff (digest prev e.payload) e.self_digest), ground (arith, h))

  same_entries :
      (d d' : String) (es es' : List Entry)
      → verify_from digest d es ≡ true
      → verify_from digest d' es' ≡ true
      → length es ≡ length es'
      → last_digest d es ≡ last_digest d' es'
      → ((payloads es ≡ payloads es') × (d ≡ d')) ⊎ Collision
  unfolding last_digest
  same_entries d d' [] [] h h' len last = inl (refl, last)
  same_entries d d' [] (x ∷ es') h h' len last = absurd (omega arith)
  same_entries d d' (x ∷ es) [] h h' len last = absurd (omega arith)
  same_entries d d' (x ∷ es) (y ∷ es') h h' len last =
      let (own, rest) = links d x es h in
      let (own', rest') = links d' y es' h' in
      elim (same_entries x.self_digest y.self_digest es es' rest rest' (omega arith) last) [
        | inr clash ↦ inr clash
        | inl (tail, selves) ↦
            elim (same_input d d' x.payload y.payload (own ∙ selves ∙ sym own')) [
              | inl (prevs, heads) ↦ inl (ap₂ (λ p ps. p ∷ ps) heads tail, prevs)
              | inr clash ↦ inr clash
            ]
      ]

  -- Tampering shows: two chains that verify, have equally many entries and end in the same digest
  -- hold the same payloads, unless two different inputs with the same digest are at hand.
  pub verify-same_payloads :
      (c c' : HashChain)
      → verify digest c ≡ true
      → verify digest c' ≡ true
      → length c.entries ≡ length c'.entries
      → last_digest zero_digest c.entries ≡ last_digest zero_digest c'.entries
      → (payloads c.entries ≡ payloads c'.entries) ⊎ Collision
  unfolding verify
  verify-same_payloads c c' h h' len last =
      elim (same_entries zero_digest zero_digest c.entries c'.entries h h' len last) [
        | inl (same, _) ↦ inl same
        | inr clash ↦ inr clash
      ]
