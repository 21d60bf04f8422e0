-- ===== src/Coordination/Actions/Ranking.antt =====
-- Actions.frontier and Actions.next of noesis_harness/coordination.py.
use mathlib.Core.Path.{subst}
use mathlib.Core.Option.{some-injective}
use noesis_harness_agent_mem.Prelude.{
  ◌≤◌, ◌<◌, Bool, true, false, some, List, [], ◌∷◌, ◌≡◌, ◌⊎◌, refl, ◌∙◌, sym, arith, Bool-cases,
  inl, inr, All, take,
}
use noesis_harness_agent_mem.Table.{select, order_by}
use noesis_harness_agent_mem.Table.Sorting.{head?, head-order_by, All-order_by}
use noesis_harness_agent_mem.Coordination.Actions.{Action, Actions, is_pending, ranked, next}

ranked_total : (a b : Action) → ranked a b ≡ false → ranked b a ≡ true
ranked_total a b h = ground arith

ranked_trans : (a b c : Action) → ranked a b ≡ true → ranked b c ≡ true → ranked a c ≡ true
ranked_trans a b c h k = ground arith

-- `a` may be served before `b`: a higher priority, or the same and not younger
abbrev pub Precedes : Action → Action → Type 0
Precedes a b =
    (b.priority < a.priority) ⊎ ((b.priority ≡ a.priority) × (a.created_at ≤ b.created_at))

ranked→Precedes : (a b : Action) → ranked a b ≡ true → Precedes a b
ranked→Precedes a b h = grind arith

All-Precedes :
    (a : Action) (rows : List Action) → All (λ r. ranked a r ≡ true) rows → All (Precedes a) rows
All-Precedes a [] h = tt
All-Precedes a (r ∷ rs) h = (ranked→Precedes a r h.0, All-Precedes a rs h.1)

-- the rows that a SELECT passes over
All-of_select :
    (P : Action → Type 0) (p : Action → Bool) (rows : List Action)
    → All P (select p rows)
    → All (λ r. p r ≡ true → P r) rows
unfolding select
All-of_select P p [] h = tt
All-of_select P p (r ∷ rs) h = elim (Bool-cases (p r)) [
  | inl e ↦ let k : All P (r ∷ select p rs) = rw e at h in (λ _. k.0, All-of_select P p rs k.1)
  | inr e ↦ (λ f. absurd (ground arith), All-of_select P p rs (rw e at h))
]

selected : (p : Action → Bool) (rows : List Action) → All (λ r. p r ≡ true) (select p rows)
unfolding select
selected p [] = tt
selected p (r ∷ rs) = elim (Bool-cases (p r)) [
  | inl e ↦ rw e (e, selected p rs)
  | inr e ↦ rw e (selected p rs)
]

head-take : (rows : List Action) → head? (take 1 rows) ≡ head? rows
head-take [] = refl
head-take (r ∷ rs) = refl

All-head :
    (P : Action → Type 0) (a : Action) (rows : List Action) → All P rows → head? rows ≡ some a → P a
All-head P a [] h e = cc
All-head P a (r ∷ rs) h e = subst P (some-injective r a e) h.0

-- What `next` serves is pending, and no pending action has a higher priority, or the same priority and
-- an earlier creation.
pub next-Precedes :
    (s : Actions) (a : Action)
    → next s ≡ some a
    → (is_pending a.status ≡ true) × All (λ r. is_pending r.status ≡ true → Precedes a r) s.actions
unfolding next
next-Precedes s a e =
    let f : head? (order_by ranked (select (λ r. is_pending r.status) s.actions)) ≡ some a =
      sym (head-take (order_by ranked (select (λ r. is_pending r.status) s.actions))) ∙ e in
    (
      All-head (λ r. is_pending r.status ≡ true) a _
          (All-order_by ranked (λ r. is_pending r.status ≡ true) _
            (selected (λ r. is_pending r.status) s.actions))
          f,
      All-of_select (Precedes a) (λ r. is_pending r.status) s.actions
          (All-Precedes a _ (head-order_by ranked ranked_total ranked_trans a _ f)),
    )
