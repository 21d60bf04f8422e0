-- ===== src/Tests/Audit.antt =====
-- The audit chain and the command ledger of noesis_harness/nextgen.py on concrete runs.
use noesis_harness_agent_mem.Prelude.{
  ok, err, if◌then◌else◌, Result, ℕ, suc, String, ◌≡◌, refl, true, false, Option, none, some, List,
  [], ◌∷◌, ◌==◌,
}
use noesis_harness_agent_mem.Table.{fetchone}
use noesis_harness_agent_mem.Nextgen.Audit
use noesis_harness_agent_mem.Nextgen.Audit.{
  hash_mismatch, Line, Event, intact, broken, sequence_or_link, append, make_event, verify,
  verify_from, next_seq, last_hash, write,
}
use noesis_harness_agent_mem.Nextgen.Audit.Verifying.{append-intact, write_twice-broken}
use noesis_harness_agent_mem.Nextgen.Ledger.{execute_once, type_error}
use noesis_harness_agent_mem.Nextgen.Ledger.Replaying.{run, execute_once-replayed}

program : Unit {0}
unfolding append make_event verify verify_from next_seq last_hash fetchone execute_once run
program = tt

abbrev digest : ℕ → ℕ → String → String → String → String → String
digest seq ts actor event_type payload prev = payload

-- json.loads of a text whose keys come back in another order
abbrev reload : String → String
reload t = if t == "{2,10}" then "{10,2}" else t

abbrev one : List Line
one = (append digest reload [] "a" "t" (some "p") 5).1

verified : verify digest one ≡ intact 1 "p"
unfolding program
verified = refl

append-intact_example :
    (e : Event) × ((append digest reload one "a" "t" (some "q") 6).0 ≡ ok e)
    × (verify digest (append digest reload one "a" "t" (some "q") 6).1 ≡ intact 2 e.event_hash)
append-intact_example = append-intact digest reload one "a" "t" "q" 6 1 "p" verified refl

-- a payload that is read back as another one
reordered :
    verify digest (append digest reload one "a" "t" (some "{2,10}") 6).1 ≡ broken 2 hash_mismatch
unfolding program
reordered = refl

unwritable : append digest reload one "a" "t" none 6 ≡ (err Audit.type_error, one)
unfolding program
unwritable = refl

write_twice-broken_example :
    verify digest (
      write digest reload
        (write digest reload one (make_event digest one "a" "t" (some "q") 6))
        (make_event digest one "b" "t" (some "r") 7))
    ≡ broken 3 sequence_or_link
unfolding program
write_twice-broken_example =
    write_twice-broken digest reload one "a" "t" "q" "b" "t" "r" 6 7 1 "p" verified refl

-- results: a text, a tuple of a text, which JSON writes as a list, and one that it does not have
data Value : Type 0 where
  text_value tuple_value list_value : String → Value
  function_value : Value

abbrev dumps : Value → Option String
dumps (text_value t) = some t
dumps (tuple_value t) = some "[]"
dumps (list_value t) = some "[]"
dumps function_value = none

abbrev loads : String → Value
loads t = if t == "[]" then list_value "" else text_value t

-- a callable that counts its runs
abbrev tick : ℕ → Result String Value × ℕ
tick w = (ok (tuple_value ""), suc w)

abbrev fail : ℕ → Result String Value × ℕ
fail w = (err "no", w)

abbrev odd : ℕ → Result String Value × ℕ
odd w = (ok function_value, suc w)

ran : (execute_once dumps loads [] "c" tick 1 0).0 ≡ ok (tuple_value "", true)
unfolding program
ran = refl

-- the callable has run, and nothing is stored
unwritten : execute_once dumps loads [] "c" odd 1 0 ≡ (err type_error, [], 1)
unfolding program
unwritten = refl

abbrev calls : List (String × (ℕ → Result String Value × ℕ) × ℕ)
calls = ("d", tick, 2) ∷ ("c", tick, 3) ∷ ("e", fail, 4) ∷ []

execute_once-replayed_example :
    (text : String) × (dumps (tuple_value "") ≡ some text)
    × (execute_once dumps loads
          (run dumps loads
            (execute_once dumps loads [] "c" tick 1 0).1
            (execute_once dumps loads [] "c" tick 1 0).2
            calls).0
          "c"
          fail
          5
          9
        ≡ (
          ok (loads text, false),
          (run dumps loads
              (execute_once dumps loads [] "c" tick 1 0).1
              (execute_once dumps loads [] "c" tick 1 0).2
              calls).0,
          9,
        ))
execute_once-replayed_example =
    execute_once-replayed dumps loads [] "c" (tuple_value "") tick fail 1 5 0 9 calls ran
