-- ===== src/Tests/Scope.antt =====
-- The scopes of noesis_harness/scope.py on concrete facts.
use noesis_harness_agent_mem.Prelude.{concat, String, ◌≡◌, refl, List, [], ◌∷◌}
use noesis_harness_agent_mem.Scope.{Hit, prefix, saved, recall, collect}
use noesis_harness_agent_mem.Scope.Leaking.{recall-leaks}

program : Unit {0}
unfolding prefix saved recall collect
program = tt

abbrev hit : String → String → Hit
hit id fact = record { id = id; fact = fact }

-- another agent's fact is passed over, a shared one is not
apart :
    recall (prefix "a") 5 (hit "1" "scope:b|x" ∷ hit "2" "y" ∷ hit "3" "scope:a|z" ∷ [])
    ≡ hit "2" "y" ∷ hit "3" "z" ∷ []
unfolding program
apart = refl

recall-leaks_example :
    (rest : List Hit) × (recall (prefix "a") 5 (
        record {
          id = "1";
          fact = (saved (prefix (concat "a" (concat "|" "b"))) "secret" "semantic").0;
        }
        ∷ [])
      ≡ record { id = "1"; fact = concat "b" (concat "|" "secret") } ∷ rest)
recall-leaks_example = recall-leaks "a" "b" "secret" "semantic" "1" 5 [] refl
