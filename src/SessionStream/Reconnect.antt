-- ===== src/SessionStream/Reconnect.antt =====
-- What a client of noesis_harness/session_stream.py gets when it connects again.
use mathlib.Core.Path.{subst}
use noesis_harness_agent_mem.Table.{select}
use noesis_harness_agent_mem.SessionStream.{
  SessionEventBuffer, StreamEvent, trim, publish, new_event, Error, publish_unless, envelope, init,
  since, invalid_buffer_configuration,
}
use noesis_harness_agent_mem.Prelude.{
  ok, ltb, Bool-cases, length, drop, length-append, ok_injective, ok-ne-err, ℕ, zero, suc, ◌+◌, ◌-◌,
  ◌≤◌, ◌<◌, max, String, ◌≡◌, refl, sym, ap, ◌∙◌, ◌⊎◌, inl, inr, true, false, ◌||◌, Option, none,
  some, List, [], ◌∷◌, ◌++◌, arith, ◌==◌,
}

-- numbered without gaps from `n`
abbrev pub Numbered : ℕ → List StreamEvent → Type 0
Numbered n [] = Unit
Numbered n (e ∷ es) = (e.sequence ≡ n) × Numbered (suc n) es

-- The buffer holds the latest events, numbered without gaps up to the next number, at most so many.
pub record IsSound (s : SessionEventBuffer) : Type 0 where
  pub bounded : length s.events ≤ s.max_events
  pub positive : 1 ≤ s.max_events
  pub first : ℕ
  pub numbered : Numbered first s.events
  pub latest : first + length s.events ≡ s.next_sequence
  pub full : (first ≡ 1) ⊎ (length s.events ≡ s.max_events)

Numbered-append :
    (n m : ℕ) (es : List StreamEvent) (e : StreamEvent)
    → Numbered n es
    → n + length es ≡ m
    → e.sequence ≡ m
    → Numbered n (es ++ e ∷ [])
Numbered-append n m [] e h len_es own = (own ∙ omega (arith, len_es), tt)
Numbered-append n m (x ∷ es) e h len_es own =
    (h.0, Numbered-append (suc n) m es e h.1 (omega (arith, len_es)) own)

Numbered-drop :
    (k n : ℕ) (es : List StreamEvent) → k ≤ length es → Numbered n es → Numbered (n + k) (drop k es)
Numbered-drop zero n es short h = let same : n + 0 ≡ n = omega arith in rw same h
Numbered-drop (suc k) n [] short h = tt
Numbered-drop (suc k) n (e ∷ es) short h =
    let shift : n + suc k ≡ suc n + k = omega arith in
    rw shift (Numbered-drop k (suc n) es (omega (arith, short)) h.1)

length-drop : (k : ℕ) (es : List StreamEvent) → length (drop k es) ≡ length es - k
length-drop zero es = omega arith
length-drop (suc k) [] = omega arith
length-drop (suc k) (e ∷ es) = omega (arith, length-drop k es)

publish_unless-max_events :
    (s : SessionEventBuffer) (e : StreamEvent) (o : Option Error)
    → (publish_unless s e o).1.max_events ≡ s.max_events
publish_unless-max_events s e (some x) = refl
publish_unless-max_events s e none = refl

module _ (size : StreamEvent → ℕ) where
  -- the calls of `publish`
  unfoldable pub publish_all :
      SessionEventBuffer → List (String × String × Option String × ℕ) → SessionEventBuffer
  publish_all s [] = s
  publish_all s ((kind, text, task, now) ∷ cs) =
      publish_all (publish size s kind text task now).1 cs

  trim-IsSound :
      (s : SessionEventBuffer) (e : StreamEvent)
      → e.sequence ≡ s.next_sequence
      → IsSound s
      → IsSound (record s {
        events = trim s.max_events (s.events ++ e ∷ []);
        next_sequence = s.next_sequence + 1;
      })
  trim-IsSound s e own v =
      let all = s.events ++ e ∷ [] in
      let long : length all ≡ length s.events + 1 = length-append s.events (e ∷ []) in
      let numbers = Numbered-append v.first s.next_sequence s.events e v.numbered v.latest own in
      elim (Bool-cases (ltb s.max_events (length all))) [
        | inl over ↦
            let k = length all - s.max_events in
            rw over (record {
              bounded = ground (arith, length-drop k all, over);
              positive = v.positive;
              first = v.first + k;
              numbered = Numbered-drop k v.first all (omega arith) numbers;
              latest = ground (arith, length-drop k all, long, v.latest, over);
              full = inr (ground (arith, length-drop k all, over));
            })
        | inr fits ↦ rw fits (record {
          bounded = ground (arith, fits);
          positive = v.positive;
          first = v.first;
          numbered = numbers;
          latest = omega (arith, long, v.latest);
          full = elim v.full [
            | inl start ↦ inl start
            | inr most ↦ absurd (ground (arith, fits, long, most))
          ];
        })
      ]

  publish_unless-IsSound :
      (s : SessionEventBuffer) (e : StreamEvent) (o : Option Error)
      → e.sequence ≡ s.next_sequence
      → IsSound s
      → IsSound (publish_unless s e o).1
  publish_unless-IsSound s e (some x) own v = v
  publish_unless-IsSound s e none own v = trim-IsSound s e own v

  publish_all-IsSound :
      (s : SessionEventBuffer) (cs : List (String × String × Option String × ℕ))
      → IsSound s
      → IsSound (publish_all s cs)
  unfolding publish_all publish
  publish_all-IsSound s [] v = v
  publish_all-IsSound s ((kind, text, task, now) ∷ cs) v =
      let e = new_event s kind text task now in
      publish_all-IsSound (publish_unless s e (envelope size e)).1 cs
        (publish_unless-IsSound s e (envelope size e) refl v)

  publish_all-max_events :
      (s : SessionEventBuffer) (cs : List (String × String × Option String × ℕ))
      → (publish_all s cs).max_events ≡ s.max_events
  unfolding publish_all publish
  publish_all-max_events s [] = refl
  publish_all-max_events s ((kind, text, task, now) ∷ cs) =
      let e = new_event s kind text task now in
      publish_all-max_events (publish_unless s e (envelope size e)).1 cs
      ∙ publish_unless-max_events s e (envelope size e)

-- all of the events, where the first is later than the last that was seen
select-all :
    (last n : ℕ) (es : List StreamEvent)
    → last < n
    → Numbered n es
    → select (λ e. ltb last e.sequence) es ≡ es
unfolding select
select-all last n [] later h = refl
select-all last n (e ∷ es) later h =
    let own : ltb last e.sequence ≡ true = ground (arith, later, h.0) in
    rw own (ap (λ xs. e ∷ xs) (select-all last (suc n) es (omega (arith, later)) h.1))

-- the events with a later number, and how many they are
select-Numbered :
    (last n : ℕ) (es : List StreamEvent)
    → Numbered n es
    → last < n + length es
    → Numbered (max n (suc last)) (select (λ e. ltb last e.sequence) es)
      × (max n (suc last) + length (select (λ e. ltb last e.sequence) es) ≡ n + length es)
unfolding select
select-Numbered last n [] h within = (tt, ground (arith, within))
select-Numbered last n (e ∷ es) h within = elim (Bool-cases (ltb last n)) [
  | inl later ↦
      let own : ltb last e.sequence ≡ true = ground (arith, later, h.0) in
      let all = select-all last (suc n) es (ground (arith, later)) h.1 in
      let start : max n (suc last) ≡ n = ground (arith, later) in
      rw (own, all, start) ((h.0, h.1), refl)
  | inr seen ↦
      let own : ltb last e.sequence ≡ false = ground (arith, seen, h.0) in
      let start : max n (suc last) ≡ max (suc n) (suc last) = ground (arith, seen) in
      let (numbers, all) = select-Numbered last (suc n) es h.1 (omega (arith, within)) in
      rw (own, start) (numbers, omega (arith, all))
]

init-IsSound :
    (session_id : String) (max_events : ℕ) (s : SessionEventBuffer)
    → init session_id max_events ≡ ok s
    → IsSound s × (s.max_events ≡ max_events)
unfolding init
init-IsSound session_id max_events s made =
    elim (Bool-cases ((session_id == "") || ltb max_events 1)) [
      | inl bad ↦ absurd (ok-ne-err s invalid_buffer_configuration (sym (rw bad at made)))
      | inr fine ↦
          subst (λ (x : SessionEventBuffer). IsSound x × (x.max_events ≡ max_events))
            (ok_injective _ s (rw fine at made))
            (
              record {
                bounded = omega arith;
                positive = ground (arith, fine);
                first = 1;
                numbered = tt;
                latest = refl;
                full = inl refl;
              },
              refl,
            )
    ]

since-Numbered :
    (s : SessionEventBuffer) (v : IsSound s) (last : ℕ)
    → last < s.next_sequence
    → Numbered (max v.first (suc last)) (since s last)
      × (max v.first (suc last) + length (since s last) ≡ s.next_sequence)
unfolding since
since-Numbered s v last within =
    let (numbers, all) =
      select-Numbered last v.first s.events v.numbered (omega (arith, within, v.latest)) in
    (numbers, all ∙ v.latest)

-- A client that connects again to a buffer after any calls of `publish`, having seen the events up
-- to `last` (which is below the next number): it gets events numbered without gaps up to the
-- latest, from the one after `last`, or from the first that is still held; and where that is not
-- number 1, the buffer is full.
pub publish_all-since :
    (size : StreamEvent → ℕ) (session_id : String) (max_events : ℕ) (s : SessionEventBuffer)
    (calls : List (String × String × Option String × ℕ)) (last : ℕ)
    → init session_id max_events ≡ ok s
    → last < (publish_all size s calls).next_sequence
    → (first : ℕ) × Numbered (max first (suc last)) (since (publish_all size s calls) last)
      × (max first (suc last) + length (since (publish_all size s calls) last)
          ≡ (publish_all size s calls).next_sequence)
      × ((first ≡ 1) ⊎ (first + max_events ≡ (publish_all size s calls).next_sequence))
publish_all-since size session_id max_events s calls last made within =
    let (start, bound) = init-IsSound session_id max_events s made in
    let now = publish_all size s calls in
    let v = publish_all-IsSound size s calls start in
    let most = publish_all-max_events size s calls ∙ bound in
    let (numbers, all) = since-Numbered now v last within in
    (
      v.first,
      numbers,
      all,
      elim v.full [ inl one ↦ inl one | inr full ↦ inr (omega (arith, full, most, v.latest)) ],
    )
