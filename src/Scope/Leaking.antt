-- ===== src/Scope/Leaking.antt =====
-- What an agent of noesis_harness/scope.py recalls of another's facts.
use Prim.Native.String
use noesis_harness_agent_mem.Scope.{recall, prefix, saved, collect, Hit, stripped}
use noesis_harness_agent_mem.Prelude.{
  leb, if◌then◌else◌, concat, ℕ, ◌+◌, String, ◌≡◌, refl, sym, ap, ◌∙◌, false, List, [], ◌∷◌, ◌==◌,
}
use text.Mathlib.TextPositions
use text.Mathlib.TextLemmas

assoc : (s t u : String) → concat (concat s t) u ≡ concat s (concat t u)
assoc s t u = TextLemmas.append_assoc s t u

-- the prefix of `a|x`, put before a fact, starts with the prefix of `a`
nested :
    (a x fact : String)
    → concat (prefix (concat a (concat "|" x))) fact
      ≡ concat (prefix a) (concat x (concat "|" fact))
unfolding prefix
nested a x fact =
    let z = concat x (concat "|" fact) in
    let own = concat a (concat "|" x) in
    let left : concat (concat "scope:" (concat own "|")) fact
        ≡ concat "scope:" (concat a (concat "|" z)) =
      assoc "scope:" (concat own "|") fact
      ∙ ap (concat "scope:") (
          assoc own "|" fact
          ∙ assoc a (concat "|" x) (concat "|" fact)
          ∙ ap (concat a) (assoc "|" x (concat "|" fact))) in
    let right : concat (concat "scope:" (concat a "|")) z
        ≡ concat "scope:" (concat a (concat "|" z)) =
      assoc "scope:" (concat a "|") z ∙ ap (concat "scope:") (assoc a "|" z) in
    left ∙ sym right

-- a fact that starts with the prefix, without it
stripped-concat :
    (scope rest id : String)
    → stripped scope (record { id = id; fact = concat scope rest })
      ≡ record { id = id; fact = rest }
stripped-concat scope rest id =
    ap (λ (t : String). record { id = id; fact = t })
      (ap (String.slice (concat scope rest) (String.len scope))
          (TextPositions.len-append scope rest)
        ∙ TextPositions.slice-append_right scope rest)

collect-own :
    (scope rest id : String) (limit n : ℕ) (hits : List Hit)
    → (more : List Hit) × (collect scope limit n
          (record { id = id; fact = concat scope rest } ∷ hits)
        ≡ record { id = id; fact = rest } ∷ more)
unfolding collect
collect-own scope rest id limit n hits = (
  if leb limit (n + 1) then [] else collect scope limit (n + 1) hits,
  rw (TextPositions.starts_with-append scope rest, stripped-concat scope rest id) refl,
)

-- The names of agents may hold a bar: what an agent `a|x` saves as its own (not as shared), the
-- agent `a` recalls if it is the first hit, whatever its limit, with the rest of the name and the
-- bar before it.
pub recall-leaks :
    (a x fact kind id : String) (limit : ℕ) (hits : List Hit)
    → (kind == "shared") ≡ false
    → (rest : List Hit) × (recall
          (prefix a)
          limit
          (record { id = id; fact = (saved (prefix (concat a (concat "|" x))) fact kind).0 } ∷ hits)
        ≡ record { id = id; fact = concat x (concat "|" fact) } ∷ rest)
unfolding recall saved
recall-leaks a x fact kind id limit hits own =
    let (rest, first) = collect-own (prefix a) (concat x (concat "|" fact)) id limit 0 hits in
    (rest, rw (own, nested a x fact) first)
