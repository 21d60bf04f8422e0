-- ===== src/Prelude/Texts.antt =====
-- Texts measured in characters, put together, and joined.
use Prim.Native.Nat.{ℕ, ◌+◌, ◌-◌, ◌*◌, lt, eq, gt}
use Prim.Native.String
use Prim.Native.String.{String, compare}
use mathlib.Core.Path.{◌≡◌, refl}
use mathlib.Core.Bool.{Bool, true, false}
use mathlib.Core.List.{List, [], ◌∷◌}
use native.Mathlib.Omega.{arith}
use text.Mathlib.TextLemmas
use noesis_harness_agent_mem.Prelude.Lists.{length}

-- `len(t)`
abbrev pub len : String → ℕ
len t = String.count t

-- `s + t`
abbrev pub concat : String → String → String
concat s t = String.◌++◌ s t

-- `s <= t`
abbrev pub le_text : String → String → Bool
le_text s t = elim (compare s t) [ lt ↦ true | eq ↦ true | gt ↦ false ]

pub len-concat : (s t : String) → len (concat s t) ≡ len s + len t
len-concat s t = TextLemmas.length-append s t

-- `sep.join(ts)`
abbrev pub join : String → List String → String
join sep [] = ""
join sep (t ∷ []) = t
join sep (t ∷ u ∷ ts) = concat t (concat sep (join sep (u ∷ ts)))

-- the lengths of the texts together
abbrev pub total : List String → ℕ
total [] = 0
total (t ∷ ts) = len t + total ts

-- joined by a separator of two characters
pub len-join :
    (sep : String) (ts : List String)
    → len sep ≡ 2
    → len (join sep ts) ≡ total ts + 2 * (length ts - 1)
len-join sep [] two = refl
len-join sep (t ∷ []) two = omega arith
len-join sep (t ∷ u ∷ ts) two =
    let whole = len-concat t (concat sep (join sep (u ∷ ts))) in
    let tail = len-concat sep (join sep (u ∷ ts)) in
    omega (arith, whole, tail, len-join sep (u ∷ ts) two, two)
