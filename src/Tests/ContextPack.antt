-- ===== src/Tests/ContextPack.antt =====
-- The token budget of noesis_harness/context_pack.py on concrete results.
use noesis_harness_agent_mem.Prelude.{
  if◌then◌else◌, ◌≤◌, String, ◌≡◌, refl, true, some, List, [], ◌∷◌, map, ◌==◌,
}
use noesis_harness_agent_mem.ContextPack.{Hit, pack, fill, promote, estimate_tokens}
use noesis_harness_agent_mem.ContextPack.Tokens.{tokens_of, pack-tokens}

program : Unit {0}
unfolding pack fill promote estimate_tokens
program = tt

abbrev long : String
long = "0123456789012345678901234567890123456789"

-- every L0 is one token, every L1 ten
abbrev resolve : String → String → String
resolve id level = if level == "L0" then "x" else long

abbrev hits : List Hit
hits =
    record { id = "a"; fact = "f" }
    ∷ record { id = "b"; fact = "f" }
    ∷ record { id = "c"; fact = "f" }
    ∷ []

-- the budget is 50: after one item is promoted 38 tokens are left, and the other two items are dropped
dropped : map (λ r. r.id) (pack (some resolve) 50 hits).items ≡ "a" ∷ []
unfolding program
dropped = refl

counted : (pack (some resolve) 50 hits).tokens ≡ 12
unfolding program
counted = refl

pack-tokens_example :
    ((pack (some resolve) 50 hits).tokens ≤ (pack (some resolve) 50 hits).budget)
    × ((pack (some resolve) 50 hits).fits ≡ true)
    × (tokens_of (pack (some resolve) 50 hits).items ≤ (pack (some resolve) 50 hits).tokens)
pack-tokens_example = pack-tokens (some resolve) 50 hits
