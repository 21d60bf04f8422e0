-- ===== src/Tests/HashChain.antt =====
-- The hash chain of noesis_harness/merkle_chain.py on concrete inputs, with a digest that is readable.
use noesis_harness_agent_mem.Prelude.{if◌then◌else◌, String, ◌≡◌, refl, ◌⊎◌, [], ◌∷◌, ◌==◌}
use noesis_harness_agent_mem.HashChain.{
  HashChain, zero_digest, init, append, verify, verify_from, append_all,
}
use noesis_harness_agent_mem.HashChain.Tampering.{
  payloads, last_digest, Collision, verify-same_payloads,
}

program : Unit {0}
unfolding init append verify verify_from append_all last_digest
program = tt

-- a digest with many collisions
abbrev digest : String → String → String
digest prev payload =
    if payload == "{}" then "empty" else if prev == zero_digest then "first" else "later"

abbrev built : HashChain
built = append_all digest init ("{}" ∷ "1" ∷ [])

abbrev other : HashChain
other = append_all digest init ("{}" ∷ "2" ∷ [])

verify-same_payloads_example : (payloads built.entries ≡ payloads other.entries) ⊎ Collision digest
unfolding program
verify-same_payloads_example = verify-same_payloads digest built other refl refl refl refl
