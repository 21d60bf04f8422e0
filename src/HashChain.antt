-- ===== src/HashChain.antt =====
-- class HashChain of noesis_harness/merkle_chain.py. `digest` is `_digest`: sha256 of the previous
-- digest, a bar and the payload; a payload is its canonical encoding.
pub mod Tampering
use noesis_harness_agent_mem.Prelude.{
  String, Bool, true, false, List, [], ◌∷◌, ◌++◌, ◌==◌, if◌then◌else◌, not,
}

pub record Entry : Type 0 where
  pub entry_id : String
  pub prev_digest : String
  pub self_digest : String
  pub payload : String

pub record HashChain : Type 0 where
  pub entries : List Entry
  pub head : String

abbrev pub zero_digest : String
zero_digest = "0000000000000000000000000000000000000000000000000000000000000000"

unfoldable pub init : HashChain
init = record { entries = []; head = zero_digest }

abbrev pub new_entry : (String → String → String) → String → String → Entry
new_entry digest prev payload = record {
  entry_id = digest prev payload;
  prev_digest = prev;
  self_digest = digest prev payload;
  payload = payload;
}

unfoldable pub append : (String → String → String) → HashChain → String → String × HashChain
append digest c payload =
    let entry = new_entry digest c.head payload in
    (entry.self_digest, record { entries = c.entries ++ entry ∷ []; head = entry.self_digest })

-- the loop of `verify`, with the digest that it expects next
unfoldable pub verify_from : (String → String → String) → String → List Entry → Bool
verify_from digest expected_prev [] = true
verify_from digest expected_prev (e ∷ es) =
    let rest = verify_from digest e.self_digest es in
    if not (digest expected_prev e.payload == e.self_digest)
    then false
    else if not (e.prev_digest == expected_prev)
    then false
    else rest

unfoldable pub verify : (String → String → String) → HashChain → Bool
unfolding verify_from
verify digest c = verify_from digest zero_digest c.entries

-- the payloads appended one after the other
unfoldable pub append_all : (String → String → String) → HashChain → List String → HashChain
unfolding append
append_all digest c [] = c
append_all digest c (p ∷ ps) = append_all digest (append digest c p).1 ps
