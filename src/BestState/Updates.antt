-- ===== src/BestState/Updates.antt =====
-- The best score of a run under the UPDATEs of noesis_harness/best_state.py.
use noesis_harness_agent_mem.Table.Finding.{fetchone-append, fetchone_sound, fetchone-update}
use mathlib.Core.Path.{subst}
use noesis_harness_agent_mem.Prelude.{
  if◌then◌else◌, is_some, or_else, Bool-cases, ℕ, max, String, ◌≡◌, refl, ap, ◌∙◌, inl, inr, Bool,
  true, false, Option, none, some, List, [], ◌∷◌, arith, ◌==◌, eq_iff,
}
use noesis_harness_agent_mem.Table.{fetchone, update}
use noesis_harness_agent_mem.BestState.{Run, has_run, best_of, ensure_run}

-- the best score of a run, none before a candidate was verified
abbrev pub score_of : Option (String × ℕ) → Option ℕ
score_of none = none
score_of (some (b, v)) = some v

abbrev pub best_score : String → List Run → Option ℕ
best_score k runs = score_of (best_of (fetchone (has_run k) runs))

-- the greater of two optional scores
abbrev pub greater : Option ℕ → Option ℕ → Option ℕ
greater none w = w
greater (some v) none = some v
greater (some v) (some w) = some (max v w)

-- the score of a candidate that passed its verifier
abbrev pub verified : String → Option ℕ → Option ℕ
verified status score = if status == "passed" then score else none

-- an UPDATE of one run that leaves the best alone
pub update-best_score :
    (k j : String) (f : Run → Run) (runs : List Run)
    → ((r : Run) → (f r).run_id ≡ r.run_id)
    → ((r : Run) → (f r).best ≡ r.best)
    → best_score k (update (has_run j) f runs) ≡ best_score k runs
unfolding fetchone update
update-best_score k j f [] same keep = refl
update-best_score k j f (r ∷ rs) same keep = elim (Bool-cases (has_run j r)) [
  | inr other ↦ elim (Bool-cases (has_run k r)) [
    | inl own ↦ rw (other, own) refl
    | inr no_own ↦ rw (other, no_own) (update-best_score k j f rs same keep)
  ]
  | inl here ↦ elim (Bool-cases (has_run k r)) [
    | inl own ↦ rw here (rw (same r) (rw own (ap score_of (keep r))))
    | inr no_own ↦ rw here (rw (same r) (rw no_own (update-best_score k j f rs same keep)))
  ]
]

-- an UPDATE of another run
update-other :
    (k j : String) (f : Run → Run) (runs : List Run)
    → ((r : Run) → (f r).run_id ≡ r.run_id)
    → (j == k) ≡ false
    → best_score k (update (has_run j) f runs) ≡ best_score k runs
unfolding fetchone update
update-other k j f [] same other = refl
update-other k j f (r ∷ rs) same other = elim (Bool-cases (has_run j r)) [
  | inr apart ↦ elim (Bool-cases (has_run k r)) [
    | inl own ↦ rw (apart, own) refl
    | inr no_own ↦ rw (apart, no_own) (update-other k j f rs same other)
  ]
  | inl here ↦
      let no_own : has_run k r ≡ false =
        ground (arith, here, other, eq_iff r.run_id j, eq_iff r.run_id k, eq_iff j k) in
      rw here (rw (same r) (rw no_own (update-other k j f rs same other)))
]

-- the best score of a run whose row is known
pub known :
    (k j : String) (run : Run) (runs : List Run)
    → fetchone (has_run j) runs ≡ some run
    → (j == k) ≡ true
    → best_score k runs ≡ score_of run.best
known k j run runs found same =
    let fk : fetchone (has_run k) runs ≡ some run =
      subst (λ i. fetchone (has_run i) runs ≡ some run) ((eq_iff j k).0 same) found in
    ap (λ o. score_of (best_of o)) fk

-- the UPDATE of the best of run `j`
pub update_best-best_score :
    (k j sid : String) (v : ℕ) (run : Run) (runs : List Run)
    → fetchone (has_run j) runs ≡ some run
    → best_score k (update (has_run j) (λ r. record r { best = some (sid, v) }) runs)
      ≡ (if j == k then some v else best_score k runs)
update_best-best_score k j sid v run runs found = elim (Bool-cases (j == k)) [
  | inr other ↦
      rw other (update-other k j (λ r. record r { best = some (sid, v) }) runs (λ r. refl) other)
  | inl same ↦
      let here : has_run j run ≡ true = fetchone_sound (has_run j) runs run found in
      let e : fetchone (has_run j)
            (update (has_run j) (λ r. record r { best = some (sid, v) }) runs)
          ≡ some (record run { best = some (sid, v) }) =
        fetchone-update (has_run j) (has_run j) (λ r. record r { best = some (sid, v) }) runs
          (λ r _. refl)
        ∙ (rw found (rw here refl)) in
      rw same (known k j (record run { best = some (sid, v) }) _ e same)
]

new_run :
    (k j : String) (now : ℕ) (o : Option Run)
    → score_of (
        best_of (
          or_else o (
            fetchone (has_run k) (
              record {
                run_id = j;
                best = none;
                current_state_id = none;
                revision = 0;
                updated_at = now;
              }
              ∷ []))))
      ≡ score_of (best_of o)
unfolding fetchone
new_run k j now (some r) = refl
new_run k j now none = elim (Bool-cases (j == k)) [ inl e ↦ rw e refl | inr e ↦ rw e refl ]

pub ensure_run-best_score :
    (k j : String) (now : ℕ) (runs : List Run)
    → best_score k (ensure_run j now runs) ≡ best_score k runs
ensure_run-best_score k j now runs = elim (Bool-cases (is_some (fetchone (has_run j) runs))) [
  | inl old ↦ unfold ensure_run in rw old refl
  | inr new ↦
      unfold ensure_run in
      rw new (rw (fetchone-append (has_run k) runs) (new_run k j now (fetchone (has_run k) runs)))
]

-- a candidate that is not verified changes nothing
pub unverified :
    (own passed : Bool) (o : Option ℕ)
    → o ≡ (if own then greater o (if passed then none else none) else o)
unverified false passed o = refl
unverified true true none = refl
unverified true true (some v) = refl
unverified true false none = refl
unverified true false (some v) = refl
