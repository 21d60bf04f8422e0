-- ===== src/Coordination/Actions/Unblock.antt =====
-- The loop of Actions.complete of noesis_harness/coordination.py, which unblocks the dependents one
-- after another, as one simultaneous update.
use noesis_harness_agent_mem.Prelude.{
  String, Bool, true, false, List, [], ◌∷◌, map, ◌&&◌, not, ◌≡◌, refl, ap, ap₂, ◌∙◌, sym, ◌==◌,
  eq_iff, eqb, if◌then◌else◌, contains, arith, Bool-cases, inl, inr,
}
use noesis_harness_agent_mem.Table.{count, update}
use noesis_harness_agent_mem.Table.Counting.{count-update}
use noesis_harness_agent_mem.Coordination.Actions.{
  Action, Edge, pending, is_blocked, is_done, unmet, unblock, unblock_all,
}

-- a row as the loop leaves it
abbrev pub promoted : (String → Bool) → List String → Action → Action
promoted ready ts r =
    if is_blocked r.status && contains ts r.id && ready r.id
    then record r { status = pending }
    else r

abbrev unblocked : String → List Action → List Action
unblocked t = update (λ r. (r.id == t) && is_blocked r.status) (λ r. record r { status = pending })

module _ (p : Action → Bool) where
  count-unblocked :
      (t : String) (actions : List Action)
      → ((r : Action) → is_blocked r.status ≡ true → p (record r { status = pending }) ≡ p r)
      → count p (unblocked t actions) ≡ count p actions
  count-unblocked t actions keep = count-update p _ _ actions (λ r h. keep r (ground arith))

-- unblocking satisfies no requirement
unmet-unblocked :
    (edges : List Edge) (t k : String) (actions : List Action)
    → unmet edges (unblocked t actions) k ≡ unmet edges actions k
unfolding unmet
unmet-unblocked [] t k actions = refl
unmet-unblocked (e ∷ es) t k actions = rw (unmet-unblocked es t k actions) (
    rw (
      count-unblocked (λ a. (a.id == e.from_id) && not (is_done a.status)) t actions
        (λ r h. ground arith)))

unmet-unblock :
    (edges : List Edge) (t k : String) (actions : List Action)
    → unmet edges (unblock edges actions t) k ≡ unmet edges actions k
unmet-unblock edges t k actions = elim (Bool-cases (eqb (unmet edges actions t) 0)) [
  | inl e ↦ unfold unblock in rw e (unmet-unblocked edges t k actions)
  | inr e ↦ unfold unblock in rw e
]

pub map-update :
    (g h : Action → Action) (q : Action → Bool) (f : Action → Action) (rows : List Action)
    → ((r : Action) → g (if q r then f r else r) ≡ h r)
    → map g (update q f rows) ≡ map h rows
unfolding update
map-update g h q f [] e = refl
map-update g h q f (r ∷ rs) e = cc (e r, map-update g h q f rs e)

promoted-cons :
    (ready : String → Bool) (t : String) (ts : List String) (r : Action)
    → ready t ≡ true
    → promoted ready ts
        (if (r.id == t) && is_blocked r.status then record r { status = pending } else r)
      ≡ promoted ready (t ∷ ts) r
promoted-cons ready t ts r e = ground (arith, eq_iff r.id t, eq_iff t r.id)

promoted-skip :
    (ready : String → Bool) (t : String) (ts : List String) (r : Action)
    → ready t ≡ false
    → promoted ready ts r ≡ promoted ready (t ∷ ts) r
promoted-skip ready t ts r e = ground (arith, eq_iff t r.id)

promoted-nil :
    (ready : String → Bool) (actions : List Action) → actions ≡ map (promoted ready []) actions
promoted-nil ready [] = refl
promoted-nil ready (r ∷ rs) = ap₂ ◌∷◌ (ground arith) (promoted-nil ready rs)

map-pointwise :
    (g h : Action → Action) (rows : List Action)
    → ((r : Action) → g r ≡ h r)
    → map g rows ≡ map h rows
map-pointwise g h [] e = refl
map-pointwise g h (r ∷ rs) e = ap₂ ◌∷◌ (e r) (map-pointwise g h rs e)

-- one round of the loop, seen by the rounds after it
promoted-unblock :
    (edges : List Edge) (ready : String → Bool) (t : String) (ts : List String)
    (actions : List Action)
    → eqb (unmet edges actions t) 0 ≡ ready t
    → map (promoted ready ts) (unblock edges actions t) ≡ map (promoted ready (t ∷ ts)) actions
promoted-unblock edges ready t ts actions agree =
    elim (Bool-cases (eqb (unmet edges actions t) 0)) [
      | inl e ↦
          unfold unblock in
          rw e (
            map-update (promoted ready ts) (promoted ready (t ∷ ts)) _ _ actions
              (λ r. promoted-cons ready t ts r (sym agree ∙ e)))
      | inr e ↦
          unfold unblock in
          rw e (
            map-pointwise (promoted ready ts) (promoted ready (t ∷ ts)) actions
              (λ r. promoted-skip ready t ts r (sym agree ∙ e)))
    ]

pub unblock_all-eq-map :
    (edges : List Edge) (ready : String → Bool) (ts : List String) (actions : List Action)
    → ((t : String) → eqb (unmet edges actions t) 0 ≡ ready t)
    → unblock_all edges ts actions ≡ map (promoted ready ts) actions
unfolding unblock_all
unblock_all-eq-map edges ready [] actions agree = promoted-nil ready actions
unblock_all-eq-map edges ready (t ∷ ts) actions agree =
    unblock_all-eq-map edges ready ts (unblock edges actions t)
      (λ k. ap (λ n. eqb n 0) (unmet-unblock edges t k actions) ∙ agree k)
    ∙ promoted-unblock edges ready t ts actions (agree t)
