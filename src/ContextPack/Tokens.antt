-- ===== src/ContextPack/Tokens.antt =====
-- The tokens that `pack` of noesis_harness/context_pack.py reports.
use noesis_harness_agent_mem.ContextPack.{
  Item, promote, Pack, pack, fill, estimate_tokens, finished, or_items, Hit, item_of,
}
use noesis_harness_agent_mem.Prelude.{
  ltb, leb, Bool-cases, le→leb, ℕ, ◌+◌, ◌-◌, ◌≤◌, String, ◌≡◌, inl, inr, true, Option, none, some,
  List, [], ◌∷◌, arith,
}

abbrev pub tokens_of : List Item → ℕ
tokens_of [] = 0
tokens_of (r ∷ rs) = r.tokens + tokens_of rs

fill-tokens :
    (vfs : Option (String → String → String)) (max_tokens used : ℕ) (hits : List Hit)
    → used ≤ max_tokens
    → ((fill vfs max_tokens used hits).0 ≤ max_tokens)
      × ((fill vfs max_tokens used hits).0 ≡ used + tokens_of (fill vfs max_tokens used hits).1)
unfolding fill
fill-tokens vfs max_tokens used [] within = (within, omega arith)
fill-tokens vfs max_tokens used (h ∷ hs) within =
    elim (Bool-cases (ltb max_tokens (used + (item_of vfs h).tokens))) [
      | inl over ↦ rw over (fill-tokens vfs max_tokens used hs within)
      | inr fits ↦
          let (bound, all) =
            fill-tokens vfs max_tokens (used + (item_of vfs h).tokens) hs (ground (arith, fits)) in
          rw fits (bound, omega (arith, all))
    ]

-- what is promoted costs no more than what it takes from the leftover
promote-tokens :
    (resolve : String → String → String) (leftover : ℕ) (items : List Item)
    → ((promote resolve leftover items).0 ≤ leftover)
      × (tokens_of (promote resolve leftover items).1 + (promote resolve leftover items).0
          ≤ tokens_of items + leftover)
unfolding promote
promote-tokens resolve leftover [] = (omega arith, omega arith)
promote-tokens resolve leftover (r ∷ rs) =
    let estimate = estimate_tokens (resolve r.id "L1") in
    let (low, sum) = promote-tokens resolve (leftover - (estimate - r.tokens)) rs in
    let (low_same, sum_same) = promote-tokens resolve leftover rs in
    elim (Bool-cases (leb leftover 40)) [
      | inl little ↦ rw little (omega arith, omega arith)
      | inr enough ↦ elim (Bool-cases (leb estimate (leftover + r.tokens))) [
        | inl fits ↦ rw (enough, fits) (omega (arith, low), ground (arith, fits, low, sum))
        | inr large ↦ rw (enough, large) (low_same, omega (arith, sum_same))
      ]
    ]

or_items-tokens :
    (promoted items : List Item) (n : ℕ)
    → tokens_of promoted ≤ n
    → tokens_of items ≤ n
    → tokens_of (or_items promoted items) ≤ n
or_items-tokens [] items n p h = h
or_items-tokens (r ∷ rs) items n p h = p

abbrev Within : Pack → Type 0
Within p = (p.tokens ≤ p.budget) × (p.fits ≡ true) × (tokens_of p.items ≤ p.tokens)

finished-Within :
    (vfs : Option (String → String → String)) (max_tokens used : ℕ) (items : List Item)
    → used ≤ max_tokens
    → used ≡ tokens_of items
    → Within (finished vfs max_tokens (used, items))
finished-Within none max_tokens used items bound all =
    (bound, le→leb used max_tokens bound, omega (arith, all))
finished-Within (some resolve) max_tokens used items bound all =
    elim (Bool-cases (ltb 40 (max_tokens - used))) [
      | inr little ↦ rw little (bound, le→leb used max_tokens bound, omega (arith, all))
      | inl enough ↦
          let p = promote resolve (max_tokens - used) items in
          let (low, sum) = promote-tokens resolve (max_tokens - used) items in
          rw enough (
            omega arith,
            le→leb (max_tokens - p.0) max_tokens (omega arith),
            or_items-tokens p.1 items (max_tokens - p.0) (omega (arith, low, sum, bound, all))
                (omega (arith, low, bound, all)),
          )
    ]

-- Whatever is recalled and whatever the levels hold: the tokens that `pack` reports are within the
-- budget, the field `ok` (`fits` in the model) says so, and the items that it returns cost no more
-- than it reports.
pub pack-tokens :
    (vfs : Option (String → String → String)) (max_tokens : ℕ) (hits : List Hit)
    → ((pack vfs max_tokens hits).tokens ≤ (pack vfs max_tokens hits).budget)
      × ((pack vfs max_tokens hits).fits ≡ true)
      × (tokens_of (pack vfs max_tokens hits).items ≤ (pack vfs max_tokens hits).tokens)
unfolding pack
pack-tokens vfs max_tokens hits =
    let (bound, all) = fill-tokens vfs max_tokens 0 hits (omega arith) in
    finished-Within vfs max_tokens (fill vfs max_tokens 0 hits).0 (fill vfs max_tokens 0 hits).1
      bound (omega (arith, all))
