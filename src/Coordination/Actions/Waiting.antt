-- ===== src/Coordination/Actions/Waiting.antt =====
-- Actions.create and Actions.complete of noesis_harness/coordination.py: what an action that was
-- created with requirements waits for.
use noesis_harness_agent_mem.Table.Holding.{All-imp}
use noesis_harness_agent_mem.Coordination.Actions.Requiring.{
  requires-add_edges, satisfied-all, finished-append,
}
use mathlib.Core.Option
use mathlib.Core.Path.{subst}
use noesis_harness_agent_mem.Prelude.{
  ok, if◌then◌else◌, ==_ne, All, contains, ℕ, String, ◌≡◌, refl, sym, ap, ◌∙◌, ◌≢◌, true, false,
  none, some, List, [], ◌∷◌, ◌++◌, map, arith, ◌==◌, eq_iff, eq_refl,
}
use noesis_harness_agent_mem.Table.{fetchone}
use noesis_harness_agent_mem.Table.Finding.{fetchone_sound, fetchone-append}
use noesis_harness_agent_mem.Coordination.Actions.{
  Action, Actions, blocked, has_id, complete, add_edges, pending, create,
}
use noesis_harness_agent_mem.Coordination.Actions.Completing.{
  completed, complete-eq-map, requires, satisfied, finished,
}

unfoldable pub complete_all : Actions → List String → Actions
complete_all s [] = s
complete_all s (a ∷ rest) = complete_all (complete s a) rest

fetchone-map :
    (k : String) (g : Action → Action) (rows : List Action)
    → ((r : Action) → (g r).id ≡ r.id)
    → fetchone (has_id k) (map g rows) ≡ Option.map g (fetchone (has_id k) rows)
unfolding fetchone
fetchone-map k g [] same = refl
fetchone-map k g (r ∷ rs) same = ground (arith, ap (λ j. j == k) (same r), fetchone-map k g rs same)

edges-complete : (s : Actions) (aid : String) → (complete s aid).edges ≡ s.edges
unfolding complete
edges-complete s aid = refl

complete-waits :
    (s : Actions) (aid k : String) (r : Action)
    → aid ≢ k
    → requires s.edges k aid ≡ false
    → fetchone (has_id k) s.actions ≡ some r
    → fetchone (has_id k) (complete s aid).actions ≡ some r
complete-waits s aid k r ne apart found = rw complete-eq-map (
    rw (fetchone-map k (completed s aid) s.actions (λ x. ground arith)) (
      rw found (
        ground (
          arith,
          apart,
          eq_iff r.id aid,
          (eq_iff r.id k).0 (fetchone_sound (has_id k) s.actions r found),
        ))))

complete_all-waits :
    (s : Actions) (xs : List String) (k : String) (r : Action)
    → All (λ x. (x ≢ k) × (requires s.edges k x ≡ false)) xs
    → fetchone (has_id k) s.actions ≡ some r
    → fetchone (has_id k) (complete_all s xs).actions ≡ some r
unfolding complete_all
complete_all-waits s [] k r apart found = found
complete_all-waits s (x ∷ xs) k r apart found =
    complete_all-waits (complete s x) xs k r (rw (edges-complete s x) apart.1)
      (complete-waits s x k r apart.0.0 apart.0.1 found)

abbrev new_row : String → ℕ → String → ℕ → Action
new_row title priority fresh now = record {
  id = fresh;
  title = title;
  status = blocked;
  assigned_to = "";
  priority = priority;
  created_at = now;
}

finished-completed :
    (s : Actions) (aid k : String) (rows : List Action)
    → finished rows k ≡ true
    → finished (map (completed s aid) rows) k ≡ true
unfolding finished
finished-completed s aid k [] h = refl
finished-completed s aid k (r ∷ rows) h =
    ground (arith, h, finished-completed s aid k rows (ground (arith, h)))

finished-complete_all :
    (s : Actions) (xs : List String) (k : String)
    → finished s.actions k ≡ true
    → finished (complete_all s xs).actions k ≡ true
unfolding complete_all
finished-complete_all s [] k h = h
finished-complete_all s (x ∷ xs) k h =
    finished-complete_all (complete s x) xs k
      (rw (complete-eq-map s x) (finished-completed s x k s.actions h))

edges-complete_all : (s : Actions) (xs : List String) → (complete_all s xs).edges ≡ s.edges
unfolding complete_all
edges-complete_all s [] = refl
edges-complete_all s (x ∷ xs) = edges-complete_all (complete s x) xs ∙ edges-complete s x

-- the row of a blocked action once one of its requirements is completed and none is left
complete-promotes :
    (s : Actions) (k aid : String) (r : Action)
    → k ≢ aid
    → r.status ≡ blocked
    → fetchone (has_id aid) s.actions ≡ some r
    → requires s.edges aid k ≡ true
    → satisfied s.edges s.actions k aid ≡ true
    → fetchone (has_id aid) (complete s k).actions ≡ some (record r { status = pending })
complete-promotes s k aid r ne waits found req all =
    let own = (eq_iff r.id aid).0 (fetchone_sound (has_id aid) s.actions r found) in
    rw complete-eq-map (
      rw (fetchone-map aid (completed s k) s.actions (λ x. ground arith))
        (rw found (ap some (ground (arith, own, waits, req, all, eq_iff r.id k)))))

-- `create` with requirements, under the identifier that is given or drawn
abbrev Created : Actions → String → ℕ → String → List String → String → String → ℕ → String → Type 0
Created s title priority dep deps action_id fresh now aid =
    create s title priority (dep ∷ deps) action_id fresh now ≡ (
      ok aid,
      record {
        actions = s.actions ++ new_row title priority aid now ∷ [];
        edges = add_edges aid (dep ∷ deps) s.edges;
      },
    )

create-chosen :
    (s : Actions) (title : String) (priority : ℕ) (dep : String) (deps : List String)
    (action_id fresh : String) (now : ℕ)
    → (if action_id == "" then fresh else action_id) ≢ ""
    → fetchone (has_id (if action_id == "" then fresh else action_id)) s.actions ≡ none
    → Created s title priority dep deps action_id fresh now
        (if action_id == "" then fresh else action_id)
unfolding create
create-chosen s title priority dep deps action_id fresh now ne new =
    rw (==_ne (if action_id == "" then fresh else action_id) "" ne, new) refl

created :
    (s : Actions) (title : String) (priority : ℕ) (dep : String) (deps : List String)
    (action_id fresh aid : String) (now : ℕ)
    → (if action_id == "" then fresh else action_id) ≡ aid
    → aid ≢ ""
    → fetchone (has_id aid) s.actions ≡ none
    → Created s title priority dep deps action_id fresh now aid
created s title priority dep deps action_id fresh aid now named =
    subst
      (λ a.
        a ≢ ""
        → fetchone (has_id a) s.actions ≡ none
        → Created s title priority dep deps action_id fresh now a)
      named (create-chosen s title priority dep deps action_id fresh now)

module _ (s : Actions) (title : String) (priority : ℕ) (reqs : List String) (aid : String) (now : ℕ)
    (new : fetchone (has_id aid) s.actions ≡ none)
    (unlinked : (x : String) → requires s.edges aid x ≡ false) where
  abbrev after : Actions
  after = record {
    actions = s.actions ++ new_row title priority aid now ∷ [];
    edges = add_edges aid reqs s.edges;
  }

  requires-after : (x : String) → requires after.edges aid x ≡ contains reqs x
  requires-after x =
      ground (arith, requires-add_edges aid reqs s.edges aid x, unlinked x, eq_refl aid)

  after-found : fetchone (has_id aid) after.actions ≡ some (new_row title priority aid now)
  after-found =
      fetchone-append (has_id aid) s.actions _ ∙ (rw new (unfold fetchone in rw (eq_refl aid) refl))

  after-waits :
      (xs : List String)
      → All (λ x. (x ≢ aid) × (contains reqs x ≡ false)) xs
      → fetchone (has_id aid) (complete_all after xs).actions
        ≡ some (new_row title priority aid now)
  after-waits xs apart =
      complete_all-waits after xs aid (new_row title priority aid now)
        (All-imp (λ x h. (h.0, requires-after x ∙ h.1)) xs apart) after-found

  after-promoted :
      (xs : List String) (k : String)
      → All (λ x. (x ≢ aid) × (contains reqs x ≡ false)) xs
      → ((x : String) → contains reqs x ≡ true → (x ≢ aid) × (finished s.actions x ≡ true))
      → contains reqs k ≡ true
      → fetchone (has_id aid) (complete (complete_all after xs) k).actions
        ≡ some (record (new_row title priority aid now) { status = pending })
  after-promoted xs k apart ready asked =
      let waiting = complete_all after xs in
      let same : (x : String) → requires waiting.edges aid x ≡ contains reqs x =
        λ x. ap (λ es. requires es aid x) (edges-complete_all after xs) ∙ requires-after x in
      complete-promotes waiting k aid (new_row title priority aid now) (ready k asked).0 refl
        (after-waits xs apart) (same k ∙ asked)
        (satisfied-all waiting.edges waiting.actions k aid (λ x h.
          finished-complete_all after xs x (
            finished-append s.actions (new_row title priority aid now) x
              (λ e. (ready x (sym (same x) ∙ h)).0 (sym e))
            ∙ (ready x (sym (same x) ∙ h)).1)))

-- An action that is created with requirements that are all done already (those that exist) is blocked
-- all the same: it stays blocked through any completions of actions other than itself and its
-- requirements, and is pending once one of its requirements, `k`, is completed again. This is so
-- where its identifier, given or drawn, is not empty and not in use, no edge leads to it yet, and it
-- is not among its own requirements.
pub create-waits :
    (s : Actions) (title : String) (priority : ℕ) (dep : String) (deps : List String)
    (action_id fresh aid : String) (now : ℕ) (xs : List String) (k : String)
    → (if action_id == "" then fresh else action_id) ≡ aid
    → aid ≢ ""
    → fetchone (has_id aid) s.actions ≡ none
    → ((x : String) → requires s.edges aid x ≡ false)
    → ((x : String) → contains (dep ∷ deps) x ≡ true → (x ≢ aid) × (finished s.actions x ≡ true))
    → All (λ x. (x ≢ aid) × (contains (dep ∷ deps) x ≡ false)) xs
    → contains (dep ∷ deps) k ≡ true
    → ((create s title priority (dep ∷ deps) action_id fresh now).0 ≡ ok aid)
      × (Option.map
            (λ (r : Action). r.status)
            (fetchone
              (has_id aid)
              (complete_all
                (create s title priority (dep ∷ deps) action_id fresh now).1
                xs).actions)
          ≡ some blocked)
      × (Option.map
            (λ (r : Action). r.status)
            (fetchone
              (has_id aid)
              (complete
                (complete_all (create s title priority (dep ∷ deps) action_id fresh now).1 xs)
                k).actions)
          ≡ some pending)
create-waits s title priority dep deps action_id fresh aid now xs k named ne new unlinked ready
      apart asked =
    rw (created s title priority dep deps action_id fresh aid now named ne new) (
      refl,
      ap (Option.map (λ (r : Action). r.status))
          (after-waits s title priority (dep ∷ deps) aid now new unlinked xs apart),
      ap (Option.map (λ (r : Action). r.status)) (
          after-promoted s title priority (dep ∷ deps) aid now new unlinked xs k apart ready asked),
    )
