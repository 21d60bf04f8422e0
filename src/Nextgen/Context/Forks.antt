-- ===== src/Nextgen/Context/Forks.antt =====
-- What `fork` of noesis_harness/nextgen.py keeps of the history.
use noesis_harness_agent_mem.Table.{fetchone, select, order_by}
use noesis_harness_agent_mem.Nextgen.Context.{
  fork, add, create_session, lineage, ContextManager, in_session, walk, fork_marker, MessageNode,
  Session, insert_node, next_node, has_id, integrity_error, forked, value_error, session_rows,
  from_root, by_time, Error,
}
use noesis_harness_agent_mem.Prelude.{
  ok, if◌then◌else◌, is_some, Bool-cases, All, Result, ok-ne-err, ℕ, String, ◌≡◌, refl, sym, ap,
  ap₂, ◌∙◌, inl, inr, Bool, true, false, ◌||◌, not, none, some, List, [], ◌∷◌, ◌++◌, arith, ◌==◌,
  eq_iff, eq_refl,
}

create_session-messages :
    (s : ContextManager) (agent_id session_id fresh : String) (now : ℕ)
    → (create_session s agent_id session_id fresh now).1.messages ≡ s.messages
unfolding create_session
create_session-messages s agent_id session_id fresh now =
    elim (Bool-cases (
      is_some (
        fetchone (λ (r : Session). r.id == (if session_id == "" then fresh else session_id))
          s.sessions))) [ inl old ↦ rw old refl | inr new ↦ rw new refl ]

-- the only row of a session
select-last :
    (k : String) (rows : List MessageNode) (r : MessageNode)
    → All (λ x. in_session k x ≡ false) rows
    → in_session k r ≡ true
    → select (in_session k) (rows ++ r ∷ []) ≡ r ∷ []
unfolding select
select-last k [] r none_of own = rw own refl
select-last k (x ∷ xs) r none_of own = rw none_of.0 (select-last k xs r none_of.1 own)

-- no node but itself above it
alone : (r : MessageNode) (cur : String) → next_node (r ∷ []) (r.id ∷ []) cur ≡ none
unfolding fetchone
alone r cur = ground (arith, eq_iff r.id cur, eq_iff cur "")

walk-alone : (r : MessageNode) → (r.id == "") ≡ false → walk 2 (r ∷ []) [] r.id ≡ some (r ∷ [])
unfolding walk
walk-alone r named =
    let first : next_node (r ∷ []) [] r.id ≡ some r =
      unfold fetchone in rw named (rw eq_refl refl) in
    rw first (rw alone refl)

forked-messages :
    (s : ContextManager) (new_id k : String) (node : MessageNode)
    → (forked new_id (insert_node s node)).0 ≡ ok k
    → (forked new_id (insert_node s node)).1.messages ≡ s.messages ++ node ∷ []
forked-messages s new_id k node done =
    elim (Bool-cases (is_some (fetchone (has_id node.id) s.messages))) [
      | inl old ↦ absurd (ok-ne-err k integrity_error (sym (rw old at done)))
      | inr new ↦ rw new refl
    ]

add-messages :
    (s : ContextManager) (new_id k fresh : String) (node : MessageNode)
    → ((node.content == "") || (node.role == "")) ≡ false
    → (forked new_id (add s node fresh)).0 ≡ ok k
    → (forked new_id (add s node fresh)).1.messages ≡ s.messages ++ node ∷ []
unfolding add
add-messages s new_id k fresh node full done =
    let s' = (create_session s "unknown" node.session_id fresh node.created_at).1 in
    rw full (forked-messages s' new_id k node (rw full at done))
    ∙ ap (λ ms. ms ++ node ∷ [])
        (create_session-messages s "unknown" node.session_id fresh node.created_at)

create_session-name :
    (s : ContextManager) (agent_id session_id fresh : String) (now : ℕ)
    → (session_id == "") ≡ false
    → (create_session s agent_id session_id fresh now).0 ≡ session_id
unfolding create_session
create_session-name s agent_id session_id fresh now named = rw named refl

fork-messages :
    (is_branch : String → Bool) (s : ContextManager)
    (parent_id branch fresh node_id unused : String) (now : ℕ)
    → (fresh == "") ≡ false
    → (fork is_branch s parent_id branch fresh node_id unused now).0 ≡ ok fresh
    → (fork is_branch s parent_id branch fresh node_id unused now).1.messages
      ≡ s.messages ++ fork_marker node_id fresh parent_id branch now ∷ []
fork-messages is_branch s parent_id branch fresh node_id unused now named done =
    elim (Bool-cases ((branch == "") || not (is_branch branch))) [
      | inl bad ↦ absurd (ok-ne-err fresh value_error (sym (unfold fork in rw bad at done)))
      | inr fine ↦
          let (new_id, s') = create_session s "fork" fresh unused now in
          let marker = fork_marker node_id new_id parent_id branch now in
          let taken : fork is_branch s parent_id branch fresh node_id unused now
              ≡ forked new_id (add s' marker unused) =
            unfold fork in rw fine refl in
          ap (λ (r : Result Error String × ContextManager). r.1.messages) taken
          ∙ add-messages s' new_id fresh unused marker refl
              (sym (ap (λ (r : Result Error String × ContextManager). r.0) taken) ∙ done)
          ∙ ap₂ (λ ms k. ms ++ fork_marker node_id k parent_id branch now ∷ [])
              (create_session-messages s "fork" fresh unused now)
              (create_session-name s "fork" fresh unused now named)
    ]

lineage-rows :
    (s : ContextManager) (session_id leaf_id : String) (r : MessageNode)
    → (leaf_id == "") ≡ false
    → session_rows s session_id ≡ r ∷ []
    → lineage s session_id leaf_id ≡ from_root (walk 2 (r ∷ []) [] leaf_id)
unfolding lineage
lineage-rows s session_id leaf_id r named rows = rw named (rw rows refl)

-- A fork has no history: where `fork` succeeds, with identifiers that are not empty and a session
-- name that no message has, the lineage of its marker in the new session is the marker alone,
-- whatever the message that it was forked from, since that message stays in the session that it is
-- in.
pub fork-lineage :
    (is_branch : String → Bool) (s : ContextManager)
    (parent_id branch fresh node_id unused : String) (now : ℕ)
    → (fresh == "") ≡ false
    → (node_id == "") ≡ false
    → All (λ r. in_session fresh r ≡ false) s.messages
    → (fork is_branch s parent_id branch fresh node_id unused now).0 ≡ ok fresh
    → lineage (fork is_branch s parent_id branch fresh node_id unused now).1 fresh node_id
      ≡ some (fork_marker node_id fresh parent_id branch now ∷ [])
fork-lineage is_branch s parent_id branch fresh node_id unused now named node_named free done =
    let marker = fork_marker node_id fresh parent_id branch now in
    let after = (fork is_branch s parent_id branch fresh node_id unused now).1 in
    let stored = fork-messages is_branch s parent_id branch fresh node_id unused now named done in
    let rows : session_rows after fresh ≡ marker ∷ [] =
      ap (λ ms. order_by by_time (select (in_session fresh) ms)) stored
      ∙ ap (order_by by_time) (select-last fresh s.messages marker free (eq_refl fresh))
      ∙ (unfold order_by in refl) in
    lineage-rows after fresh node_id marker node_named rows
    ∙ ap from_root (walk-alone marker node_named)
