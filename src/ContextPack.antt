-- ===== src/ContextPack.antt =====
-- class ContextPack of noesis_harness/context_pack.py. `hits` is what `memory.recall` returns, a
-- result without a fact as one with the empty text; `resolve`, where there is a `vfs`, gives the
-- text of an identifier at a level, empty where it has none. A budget below 0 is not modelled.
pub mod Tokens
use Prim.Native.Nat.{◌/◌}
use noesis_harness_agent_mem.Prelude.{
  ltb, leb, if◌then◌else◌, len, ℕ, ◌+◌, ◌-◌, max, String, Bool, Option, none, some, List, [], ◌∷◌,
  ◌==◌,
}

pub record Hit : Type 0 where
  pub id : String
  pub fact : String

pub record Item : Type 0 where
  pub id : String
  pub level : String
  pub text : String
  pub tokens : ℕ

pub record Pack : Type 0 where
  pub items : List Item
  pub tokens : ℕ
  pub budget : ℕ
  pub fits : Bool

unfoldable pub estimate_tokens : String → ℕ
estimate_tokens text = max 1 ((len text + 3) / 4)

-- `a or b` on texts
abbrev pub or_text : String → String → String
or_text a b = if a == "" then b else a

abbrev pub item_of : Option (String → String → String) → Hit → Item
item_of none h = record { id = h.id; level = "L2"; text = h.fact; tokens = estimate_tokens h.fact }
item_of (some resolve) h =
    let text = or_text (resolve h.id "L0") h.fact in
    if h.id == ""
    then record { id = h.id; level = "L2"; text = h.fact; tokens = estimate_tokens h.fact }
    else record { id = h.id; level = "L0"; text = text; tokens = estimate_tokens text }

-- the first loop, from `used` on: what is used at its end, and the items
unfoldable pub fill : Option (String → String → String) → ℕ → ℕ → List Hit → ℕ × List Item
fill vfs max_tokens used [] = (used, [])
fill vfs max_tokens used (h ∷ hs) =
    let item = item_of vfs h in
    let skipped = fill vfs max_tokens used hs in
    let taken = fill vfs max_tokens (used + item.tokens) hs in
    if ltb max_tokens (used + item.tokens) then skipped else (taken.0, item ∷ taken.1)

-- `tokens` grows by `max(0, extra)`
abbrev pub promoted_item : (String → String → String) → Item → Item
promoted_item resolve r =
    let text = resolve r.id "L1" in
    record r {
      text = or_text text r.text;
      level = "L1";
      tokens = r.tokens + (estimate_tokens text - r.tokens);
    }

-- the second loop: what is left over at its end, and the items that it reached
unfoldable pub promote : (String → String → String) → ℕ → List Item → ℕ × List Item
promote resolve leftover [] = (leftover, [])
promote resolve leftover (r ∷ rs) =
    let extra = estimate_tokens (resolve r.id "L1") - r.tokens in
    let larger = promote resolve (leftover - extra) rs in
    let same = promote resolve leftover rs in
    if leb leftover 40
    then (leftover, [])
    else if leb (estimate_tokens (resolve r.id "L1")) (leftover + r.tokens)
    then (larger.0, promoted_item resolve r ∷ larger.1)
    else (same.0, r ∷ same.1)

-- `promoted or items`
abbrev pub or_items : List Item → List Item → List Item
or_items [] items = items
or_items (r ∷ rs) items = r ∷ rs

abbrev pub result : ℕ → ℕ → List Item → Pack
result max_tokens used items = record {
  items = items;
  tokens = used;
  budget = max_tokens;
  fits = leb used max_tokens;
}

abbrev pub finished : Option (String → String → String) → ℕ → ℕ × List Item → Pack
finished none max_tokens (used, items) = result max_tokens used items
finished (some resolve) max_tokens (used, items) =
    let leftover = max_tokens - used in
    let p = promote resolve leftover items in
    if ltb 40 leftover
    then result max_tokens (max_tokens - p.0) (or_items p.1 items)
    else result max_tokens used items

unfoldable pub pack : Option (String → String → String) → ℕ → List Hit → Pack
pack vfs max_tokens hits = finished vfs max_tokens (fill vfs max_tokens 0 hits)
