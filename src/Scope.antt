-- ===== src/Scope.antt =====
-- class ScopedMemory of noesis_harness/scope.py. `hits` is what `memory.recall` returns for three
-- times the limit; `saved` is the fact and the kind that `memory.save` is called with. A fact that
-- is None is empty.
pub mod Leaking
use Prim.Native.String
use text.Mathlib.Text.{starts_with}
use noesis_harness_agent_mem.Prelude.{
  ok, err, leb, if◌then◌else◌, len, concat, Result, ℕ, ◌+◌, List, [], ◌∷◌, ◌==◌, String,
}

pub record Hit : Type 0 where
  pub id : String
  pub fact : String

pub data Error : Type 0 where
  agent_id_required : Error

-- the constructor: the prefix of the agent's facts
unfoldable pub prefix : String → String
prefix agent_id = concat "scope:" (concat agent_id "|")

unfoldable pub init : String → Result Error String
init agent_id = if agent_id == "" then err agent_id_required else ok (prefix agent_id)

unfoldable pub saved : String → String → String → String × String
saved scope fact kind = if kind == "shared" then (fact, "semantic") else (concat scope fact, kind)

abbrev pub stripped : String → Hit → Hit
stripped scope h = record h { fact = String.slice h.fact (String.len scope) (String.len h.fact) }

-- the loop, with `n` facts found so far
unfoldable pub collect : String → ℕ → ℕ → List Hit → List Hit
collect scope limit n [] = []
collect scope limit n (h ∷ hs) =
    let rest = if leb limit (n + 1) then [] else collect scope limit (n + 1) hs in
    let others = collect scope limit n hs in
    if starts_with h.fact scope
    then stripped scope h ∷ rest
    else if starts_with h.fact "scope:"
    then others
    else h ∷ rest

unfoldable pub recall : String → ℕ → List Hit → List Hit
recall scope limit hits = collect scope limit 0 hits
