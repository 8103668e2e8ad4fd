-- ===== src/Pipeline/Events/Reading.antt =====
-- eventRepository.ts: a reader that asks again for what came since its last event.
use bbmcp.Prelude.{
  ℕ, suc, ◌+◌, ◌-◌, ◌≡◌, ◌<◌, refl, ap, ◌∙◌, inl, inr, List, [], ◌∷◌, ◌++◌, arith, ltb, Bool-cases,
  get_or_else, length, length-append, drop, keep_if,
}
use bbmcp.Prelude.Dict.{get-set_self}
use bbmcp.Pipeline.State.{Project, Event, State}
use bbmcp.Pipeline.Events.Laws.{Rising, IsLog, IsLogged, events_of-IsLog, new_event}
use bbmcp.Pipeline.Events.{
  max_project_events, trim_events, events_of, append_project_snapshot_event, clone_events,
  clone_event, get_project_events_since,
}

-- What a reader has not seen that has seen the numbers up to `last`.
abbrev pub unseen : ℕ → List Event → List Event
unseen last = keep_if (λ e. ltb last e.seq)

unseen-append :
    (last : ℕ) (es : List Event) (e : Event)
    → last < e.seq
    → unseen last (es ++ e ∷ []) ≡ unseen last es ++ e ∷ []
unseen-append last [] e h = ground arith
unseen-append last (x ∷ es) e h = elim (Bool-cases (ltb last x.seq)) [
  | inl new ↦ rw (new, unseen-append last es e h) refl
  | inr old ↦ rw (old, unseen-append last es e h) refl
]

-- Behind an unseen event all are unseen.
length-unseen :
    (last low : ℕ) (es : List Event)
    → Rising low es
    → last < low
    → length (unseen last es) ≡ length es
length-unseen last low [] r h = refl
length-unseen last low (e ∷ es) (first, r) h = ground (arith, length-unseen last (e.seq + 1) es r)

-- A reader that has some room to the oldest event has seen it.
unseen-drop :
    (last : ℕ) (es : List Event)
    → Rising 0 es
    → length (unseen last es) < length es
    → unseen last (drop 1 es) ≡ unseen last es
unseen-drop last [] r h = refl
unseen-drop last (e ∷ es) (first, r) h = elim (Bool-cases (ltb last e.seq)) [
  | inl new ↦ absurd (ground (arith, length-unseen last (e.seq + 1) es r))
  | inr old ↦ rw old refl
]

drop_one-append :
    (es : List Event) (e : Event) → 0 < length es → drop 1 (es ++ e ∷ []) ≡ drop 1 es ++ e ∷ []
drop_one-append [] e h = elim h [ ]
drop_one-append (x ∷ es) e h = refl

unseen-trim_events :
    (next last : ℕ) (es : List Event) (e : Event)
    → IsLog next es
    → last < e.seq
    → length (unseen last es) < max_project_events
    → unseen last (trim_events (es ++ e ∷ [])) ≡ unseen last es ++ e ∷ []
unfolding trim_events
unseen-trim_events next last es e log h room =
    elim (Bool-cases (ltb max_project_events (length (es ++ e ∷ [])))) [
      | inr short ↦ rw (short, trim_events) (unseen-append last es e h)
      | inl long ↦
          let full : length es ≡ max_project_events =
            ground (arith, length-append es (e ∷ []), log.bounded) in
          let one : length (es ++ e ∷ []) - max_project_events ≡ 1 =
            omega (arith, length-append es (e ∷ [])) in
          rw
            (
              long,
              trim_events,
              one,
              drop_one-append es e (omega arith),
              unseen-append last (drop 1 es) e h,
              unseen-drop last es log.rising (omega arith),
            )
            refl
    ]

clone_events-append :
    (es fs : List Event) → clone_events (es ++ fs) ≡ clone_events es ++ clone_events fs
clone_events-append [] fs = refl
clone_events-append (e ∷ es) fs = rw (clone_events-append es fs) refl

length-clone_events : (es : List Event) → length (clone_events es) ≡ length es
length-clone_events [] = refl
length-clone_events (e ∷ es) = ap suc (length-clone_events es)

events_of-append :
    (s : State) (p : Project)
    → events_of (append_project_snapshot_event s p) p.project_id
      ≡ trim_events (events_of s p.project_id ++ new_event s p ∷ [])
unfolding append_project_snapshot_event
events_of-append s p =
    ap (λ o. get_or_else o [])
      (get-set_self p.project_id (trim_events (events_of s p.project_id ++ new_event s p ∷ []))
        s.project_events)

-- With logs in order, a reader that has seen numbers given out before and lags by fewer than two
-- hundred events misses none: after a snapshot is shown it gets what it would have got before, and
-- the new event behind that.
pub get_project_events_since-append :
    (s : State) (p : Project) (last : ℕ)
    → IsLogged s
    → last < s.next_seq
    → length (get_project_events_since s p.project_id last) < max_project_events
    → get_project_events_since (append_project_snapshot_event s p) p.project_id last
      ≡ get_project_events_since s p.project_id last ++ clone_event (new_event s p) ∷ []
unfolding get_project_events_since
get_project_events_since-append s p last h below room =
    let log = events_of-IsLog s p.project_id h in
    let old = events_of s p.project_id in
    ap clone_events (
      ap (unseen last) (events_of-append s p)
      ∙ unseen-trim_events s.next_seq last old (new_event s p) log below
          (omega (arith, length-clone_events (unseen last old))))
    ∙ clone_events-append (unseen last old) (new_event s p ∷ [])
