-- ===== src/Service/LiveEvents/Laws.antt =====
-- live-events.ts: the timer and the subscribers of a broadcaster over any sequence of actions.
use cbdc_tokenization_sandbo.Prelude.{
  All, All-append, Bool, Bool-cases, List, [], arith, false, if-holds, inl, inr, length, ltb, refl,
  sym, true, ℕ, ◌++◌, ◌==◌, ◌∙◌, ◌∷◌, ◌≡◌, ◌≢◌, ◌⊎◌,
}
use cbdc_tokenization_sandbo.Service.LiveEvents.{
  timer_fires, subscribes, unsubscribes, publishes, start, step, Action, Frame,
  LiveEventBroadcaster, Reachable, broadcast, changed, heartbeat, live_resource_keys, perform,
  publish_changed, stop_heartbeat_when_idle, subscribe, unsubscribe,
}
use cbdc_tokenization_sandbo.Database.Table.{delete_rows, has_row, select_rows}

abbrev pub Absent : ℕ → List ℕ → Type 0
Absent s = All (λ t. s ≢ t)

abbrev pub NoTwice : List ℕ → Type 0
NoTwice [] = Unit
NoTwice (s ∷ ss) = Absent s ss × NoTwice ss

-- The invariant.
abbrev pub IsTidy : LiveEventBroadcaster → Type 0
IsTidy b = (b.timer_runs ≡ ltb 0 (length b.subscribers)) × NoTwice b.subscribers

module _ (p : ℕ → Bool) where
  Absent-select : (s : ℕ) (ss : List ℕ) → Absent s ss → Absent s (select_rows p ss)
  unfolding select_rows
  Absent-select s [] h = tt
  Absent-select s (t ∷ ss) h =
      if-holds (Absent s) (p t) (h.0, Absent-select s ss h.1) (Absent-select s ss h.1)

  NoTwice-select : (ss : List ℕ) → NoTwice ss → NoTwice (select_rows p ss)
  unfolding select_rows
  NoTwice-select [] h = tt
  NoTwice-select (s ∷ ss) h =
      if-holds NoTwice (p s) (Absent-select s ss h.0, NoTwice-select ss h.1) (NoTwice-select ss h.1)

  Absent-delete : (s : ℕ) (ss : List ℕ) → Absent s ss → Absent s (delete_rows p ss)
  unfolding delete_rows
  Absent-delete s [] h = tt
  Absent-delete s (t ∷ ss) h =
      if-holds (Absent s) (p t) (Absent-delete s ss h.1) (h.0, Absent-delete s ss h.1)

  NoTwice-delete : (ss : List ℕ) → NoTwice ss → NoTwice (delete_rows p ss)
  unfolding delete_rows
  NoTwice-delete [] h = tt
  NoTwice-delete (s ∷ ss) h =
      if-holds NoTwice (p s) (NoTwice-delete ss h.1) (Absent-delete s ss h.0, NoTwice-delete ss h.1)

NoTwice-append :
    (s : ℕ) (ss : List ℕ) → has_row (◌==◌ s) ss ≡ false → NoTwice ss → NoTwice (ss ++ s ∷ [])
unfolding has_row
NoTwice-append s [] free h = (tt, tt)
NoTwice-append s (t ∷ ss) free h = (
  All-append (λ u. t ≢ u) ss (s ∷ []) h.0 (ground arith, tt),
  NoTwice-append s ss (ground arith) h.1,
)

some_append : (s : ℕ) (ss : List ℕ) → ltb 0 (length (ss ++ s ∷ [])) ≡ true
some_append s [] = refl
some_append s (t ∷ ss) = ground arith

has_row-some : (p : ℕ → Bool) (ss : List ℕ) → has_row p ss ≡ true → ltb 0 (length ss) ≡ true
unfolding has_row
has_row-some p [] h = h
has_row-some p (s ∷ ss) h = ground arith

empty_delete :
    (p : ℕ → Bool) (ss : List ℕ)
    → ltb 0 (length ss) ≡ false
    → ltb 0 (length (delete_rows p ss)) ≡ false
unfolding delete_rows
empty_delete p [] h = h
empty_delete p (s ∷ ss) h = absurd (ground arith)

empty_select :
    (p : ℕ → Bool) (ss : List ℕ)
    → ltb 0 (length ss) ≡ false
    → ltb 0 (length (select_rows p ss)) ≡ false
unfolding select_rows
empty_select p [] h = h
empty_select p (s ∷ ss) h = absurd (ground arith)

-- Either the timer runs, or there is nobody.
running_or_empty :
    (b : LiveEventBroadcaster)
    → IsTidy b
    → (b.timer_runs ≡ true) ⊎ (ltb 0 (length b.subscribers) ≡ false)
running_or_empty b tidy = elim (Bool-cases b.timer_runs) [
  | inl e ↦ inl e
  | inr e ↦ inr (sym tidy.0 ∙ e)
]

stop-IsTidy :
    (b : LiveEventBroadcaster) (ss : List ℕ)
    → (b.timer_runs ≡ true) ⊎ (ltb 0 (length ss) ≡ false)
    → NoTwice ss
    → IsTidy (stop_heartbeat_when_idle (record b { subscribers = ss }))
unfolding stop_heartbeat_when_idle
stop-IsTidy b ss h once = elim (Bool-cases (ltb 0 (length ss))) [
  | inl some_left ↦
      let runs : b.timer_runs ≡ true = elim h [
        | inl e ↦ e
        | inr e ↦ absurd (ground (arith, e, some_left))
      ] in
      rw some_left (runs ∙ sym some_left, once)
  | inr nobody ↦ rw nobody (sym nobody, once)
]

unsubscribe-IsTidy : (s : ℕ) (b : LiveEventBroadcaster) → IsTidy b → IsTidy (unsubscribe s b)
unfolding unsubscribe
unsubscribe-IsTidy s b tidy =
    stop-IsTidy b (delete_rows (◌==◌ s) b.subscribers)
      (elim (running_or_empty b tidy) [
        | inl e ↦ inl e
        | inr e ↦ inr (empty_delete (◌==◌ s) b.subscribers e)
      ])
      (NoTwice-delete (◌==◌ s) b.subscribers tidy.1)

subscribe-IsTidy : (s : ℕ) (b : LiveEventBroadcaster) → IsTidy b → IsTidy (subscribe s b)
unfolding subscribe
subscribe-IsTidy s b tidy = elim (Bool-cases (has_row (◌==◌ s) b.subscribers)) [
  | inl there ↦ rw there (sym (has_row-some (◌==◌ s) b.subscribers there), tidy.1)
  | inr free ↦
      rw free (sym (some_append s b.subscribers), NoTwice-append s b.subscribers free tidy.1)
]

module _ (takes : ℕ → Frame → Bool) where
  broadcast-IsTidy :
      (frame : Frame) (b : LiveEventBroadcaster) → IsTidy b → IsTidy (broadcast takes frame b)
  unfolding broadcast
  broadcast-IsTidy frame b tidy =
      stop-IsTidy b (select_rows (λ s. takes s frame) b.subscribers)
        (elim (running_or_empty b tidy) [
          | inl e ↦ inl e
          | inr e ↦ inr (empty_select (λ s. takes s frame) b.subscribers e)
        ])
        (NoTwice-select (λ s. takes s frame) b.subscribers tidy.1)

  perform-IsTidy :
      (action : Action takes) (b : LiveEventBroadcaster)
      → IsTidy b
      → IsTidy (perform takes action b)
  unfolding perform publish_changed
  perform-IsTidy (subscribes s) b tidy = subscribe-IsTidy s b tidy
  perform-IsTidy (unsubscribes s) b tidy = unsubscribe-IsTidy s b tidy
  perform-IsTidy (publishes requested) b tidy =
      if-holds IsTidy (ltb 0 (length (select_rows requested live_resource_keys)))
        (broadcast-IsTidy (changed (select_rows requested live_resource_keys)) b tidy) tidy
  perform-IsTidy timer_fires b tidy =
      if-holds IsTidy b.timer_runs (broadcast-IsTidy heartbeat b tidy) tidy

  -- After any sequence of subscriptions, cancellations, changes and ticks of the timer, whichever
  -- subscribers throw, the timer runs exactly if there is a subscriber, and no subscriber is listed
  -- twice.
  pub Reachable-IsTidy : (b : LiveEventBroadcaster) → Reachable takes b → IsTidy b
  Reachable-IsTidy b start = (refl, tt)
  Reachable-IsTidy b (step action before reached_before) =
      perform-IsTidy action before (Reachable-IsTidy before reached_before)
