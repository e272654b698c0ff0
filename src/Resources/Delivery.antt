-- ===== src/Resources/Delivery.antt =====
-- The way of an event from RegisteredResourceEvent to ProcessedResourceEvents.
use mathlib.Core.List.{Sublist, append_assoc, append-nil}
use mathlib.Core.List.Sublist
use kactivitymanagerd.Prelude.{
  ltb, ℕ, suc, String, Bool, true, false, not, ◌&&◌, ◌||◌, List, [], ◌∷◌, ◌++◌, ◌≡◌, refl, sym,
  arith, ◌==◌, nat_eq, string_eq, lookup, has_key, or_default, if◌then◌else◌, select, contains,
  Bool-cases, inl, inr, ==_iff, contains-append, is_empty,
}
use kactivitymanagerd.Event.{
  Event, event_beq, event_eq, last_event_type, accessed, opened, closed, derive_with_type,
  focussed_in, focussed_out,
}
use kactivitymanagerd.Resources.Events.{
  WindowData, no_data, Resources, init, insert_event, drop_same_resource, track_window, window_of,
  add_windowed, add_windowless, add_event, register_resource_event, close_resources, window_closed,
  focus_event, active_window_changed, run_round, register_resource_mimetype,
  register_resource_title, Call, register, close_window, activate_window, thread_round,
  register_mimetype, register_title, perform, run,
}

-- the lists one after the other
abbrev pub concat : List (List Event) → List Event
concat [] = []
concat (l ∷ ls) = l ++ concat ls

concat-snoc : (ls : List (List Event)) (l : List Event) → concat (ls ++ l ∷ []) ≡ concat ls ++ l
concat-snoc [] l = append-nil l
concat-snoc (k ∷ ls) l = rw (concat-snoc ls l) (sym (append_assoc k (concat ls) l))

-- What was passed on and what is queued, together, is what was registered with some events left
-- out: nothing is passed on twice, out of order, or made up.
abbrev pub InOrder : Resources → Type 0
InOrder s = Sublist (concat s.processed ++ s.events) s.registered

select-sublist : (p : Event → Bool) (xs : List Event) → Sublist (select p xs) xs
unfolding select
select-sublist p [] = Sublist.refl []
select-sublist p (x ∷ xs) = elim (Bool-cases (p x)) [
  | inl e ↦ rw e (Sublist.cons-cons x (select-sublist p xs))
  | inr e ↦ rw e (Sublist.cons x (select-sublist p xs))
]

pub insert_event-InOrder : (e : Event) (s : Resources) → InOrder s → InOrder (insert_event e s)
insert_event-InOrder e s h = elim (Bool-cases (event_beq s.last_event e)) [
  | inl again ↦ unfold insert_event in rw again h
  | inr new ↦
      unfold insert_event in
      rw (new, sym (append_assoc (concat s.processed) s.events (e ∷ [])))
        (Sublist.append h (Sublist.refl (e ∷ [])))
]

drop-InOrder : (e : Event) (s : Resources) → InOrder s → InOrder (drop_same_resource e s)
drop-InOrder e s h = elim (Bool-cases (not (e.kind == accessed))) [
  | inl purge ↦
      unfold drop_same_resource in
      rw purge (
        Sublist.trans
          (Sublist.append (Sublist.refl (concat s.processed)) (select-sublist _ s.events)) h)
  | inr keep ↦ unfold drop_same_resource in rw keep h
]

-- What the insertion of an event of the time of `e` keeps, the `switch` of addEvent keeps.
if-keeps :
    (P : Resources → Type 0) (b : Bool) (s t : Resources) → P s → P t → P (if b then s else t)
if-keeps P true s t x y = x
if-keeps P false s t x y = y

module _ (P : Resources → Type 0) (e : Event)
    (insert_keeps : (f : Event) (s : Resources)
      → f.timestamp ≡ e.timestamp
      → P s
      → P (insert_event f s)) where
  ins : (f : Event) (s : Resources) → f.timestamp ≡ e.timestamp → P s → P (insert_event f s)
  ins = insert_keeps

  track_window-keeps : (d : WindowData) (s : Resources) → P s → P (track_window e d s).0
  track_window-keeps d s h = elim (Bool-cases (e.kind == opened)) [
    | inl k ↦ elim (Bool-cases (d.focussed_resource == "")) [
      | inl f ↦
          unfold track_window in
          rw (k, f) (ins (derive_with_type e focussed_in) _ refl (ins e s refl h))
      | inr f ↦ unfold track_window in rw (k, f) (ins e s refl h)
    ]
    | inr k ↦ elim (Bool-cases (e.kind == focussed_in)) [
      | inl f ↦
          unfold track_window in
          rw (k, f)
            (ins e _ refl (
              if-keeps P (not (contains d.resources e.uri)) _ _
                (ins (derive_with_type e opened) s refl h) h))
      | inr f ↦ elim (Bool-cases (e.kind == closed)) [
        | inr g ↦ elim (Bool-cases (e.kind == focussed_out)) [
          | inl o ↦ unfold track_window in rw (k, f, g, o) (ins e s refl h)
          | inr o ↦ unfold track_window in rw (k, f, g, o) (ins e s refl h)
        ]
        | inl g ↦ elim (Bool-cases (d.focussed_resource == e.uri)) [
          | inl o ↦
              unfold track_window in
              rw (k, f, g, o) (ins e _ refl (ins (derive_with_type e focussed_out) s refl h))
          | inr o ↦ unfold track_window in rw (k, f, g, o) (ins e s refl h)
        ]
      ]
    ]
  ]

add_event-InOrder : (e : Event) (s : Resources) → InOrder s → InOrder (add_event e s)
add_event-InOrder e s h =
    let s1 : Resources = drop_same_resource e s in
    let h1 : InOrder s1 = drop-InOrder e s h in
    elim (Bool-cases (not (e.wid == 0))) [
      | inl window ↦
          unfold add_event add_windowed in
          rw window (
            track_window-keeps InOrder e (λ f u _. insert_event-InOrder f u) (window_of e s1) s1 h1)
      | inr free ↦ elim (Bool-cases (not (e.kind == focussed_in) && not (e.kind == focussed_out))) [
        | inl plain ↦
            unfold add_event add_windowless in rw (free, plain) (insert_event-InOrder e s1 h1)
        | inr focus ↦ unfold add_event add_windowless in rw (free, focus) h1
      ]
    ]

register-InOrder :
    (now : ℕ) (application : String) (wid : ℕ) (uri : String) (event : ℕ) (s : Resources)
    → InOrder s
    → InOrder (register_resource_event now application wid uri event s)
register-InOrder now application wid uri event s h =
    let new_event : Event = record {
      application = application;
      wid = wid;
      uri = uri;
      kind = event;
      timestamp = now;
    } in
    elim (Bool-cases (ltb last_event_type event || uri == "" || application == "")) [
      | inl bad ↦ unfold register_resource_event in rw bad h
      | inr good ↦ unfold register_resource_event in rw good (add_event-InOrder new_event s h)
    ]

close_resources-InOrder :
    (clock : ℕ → ℕ) (i w : ℕ) (uris : List String) (s : Resources)
    → InOrder s
    → InOrder (close_resources clock i w uris s)
unfolding close_resources
close_resources-InOrder clock i w [] s h = h
close_resources-InOrder clock i w (uri ∷ uris) s h =
    close_resources-InOrder clock (suc i) w uris _ (register-InOrder (clock i) _ w uri closed s h)

window_closed-InOrder :
    (clock : ℕ → ℕ) (w : ℕ) (s : Resources) → InOrder s → InOrder (window_closed clock w s)
window_closed-InOrder clock w s h = elim (Bool-cases (has_key s.windows w)) [
  | inr unknown ↦ unfold window_closed in rw unknown h
  | inl known ↦
      let s1 : Resources = if s.focussed_window == w then record s { focussed_window = 0 } else s in
      let h1 : InOrder s1 =
        if-keeps InOrder (s.focussed_window == w) (record s { focussed_window = 0 }) s h h in
      unfold window_closed in
      rw known (
        close_resources-InOrder clock 0 w (or_default (lookup w s1.windows) no_data).resources s1
          h1)
]

focus_event-InOrder :
    (now event : ℕ) (s : Resources) → InOrder s → InOrder (focus_event now event s)
focus_event-InOrder now event s h =
    let window : WindowData = or_default (lookup s.focussed_window s.windows) no_data in
    elim (Bool-cases
      (has_key s.windows s.focussed_window && not (window.focussed_resource == ""))) [
        | inl focus ↦ unfold focus_event in rw focus (insert_event-InOrder _ s h)
        | inr blank ↦ unfold focus_event in rw blank h
      ]

active-InOrder :
    (now later w : ℕ) (s : Resources) → InOrder s → InOrder (active_window_changed now later w s)
active-InOrder now later w s h = elim (Bool-cases (w == s.focussed_window)) [
  | inl same ↦ unfold active_window_changed in rw same h
  | inr other ↦
      unfold active_window_changed in
      rw other (
        focus_event-InOrder later focussed_in
          (record (focus_event now focussed_out s) { focussed_window = w })
          (focus_event-InOrder now focussed_out s h))
]

run_round-InOrder : (s : Resources) → InOrder s → InOrder (run_round s)
run_round-InOrder s h = elim (Bool-cases (is_empty s.events)) [
  | inl none_left ↦ unfold run_round in rw none_left h
  | inr some_left ↦
      unfold run_round in
      rw (some_left, concat-snoc s.processed s.events, append-nil (concat s.processed ++ s.events))
        h
]

module _ (length : String → ℕ) where
  pub perform-InOrder : (k : Call) (s : Resources) → InOrder s → InOrder (perform length k s)
  unfolding perform
  perform-InOrder (register now a w u e) s h = register-InOrder now a w u e s h
  perform-InOrder (close_window clock w) s h = window_closed-InOrder clock w s h
  perform-InOrder (activate_window now later w) s h = active-InOrder now later w s h
  perform-InOrder thread_round s h =
      if-keeps InOrder s.thread_running (run_round s) s (run_round-InOrder s h) h
  perform-InOrder (register_mimetype u m) s h =
      unfold register_resource_mimetype in
      if-keeps InOrder (not (m == "")) s (record s { mimetypes = (u, m) ∷ s.mimetypes }) h h
  perform-InOrder (register_title u t) s h =
      unfold register_resource_title in
      if-keeps InOrder (ltb (length t) 3) s (record s { titles = (u, t) ∷ s.titles }) h h

  pub run-InOrder : (ks : List Call) (s : Resources) → InOrder s → InOrder (run length ks s)
  unfolding run
  run-InOrder [] s h = h
  run-InOrder (k ∷ ks) s h = run-InOrder ks (perform length k s) (perform-InOrder k s h)

  -- After any calls since the start, the events that the thread has passed on, followed by those
  -- still in the queue, are a sublist of the registered events: none is passed on twice, out of
  -- order or without having been registered.
  pub delivered_in_order :
      (start : ℕ) (ks : List Call)
      → let s = run length ks (init start) in Sublist (concat s.processed ++ s.events) s.registered
  delivered_in_order start ks = run-InOrder ks (init start) (unfold init in Sublist.refl [])

-- The queue holds no `other` event.
abbrev Lacks : Event → Resources → Type 0
Lacks other s = contains s.events other ≡ false

insert_event-Lacks :
    (other e : Event) (s : Resources)
    → (e.timestamp == other.timestamp) ≡ false
    → Lacks other s
    → Lacks other (insert_event e s)
unfolding insert_event contains
insert_event-Lacks other e s late h = ground (arith, contains-append s.events (e ∷ []) other)

drop-Lacks :
    (other e : Event) (xs : List Event)
    → (other.application == e.application) ≡ true
    → (other.uri == e.uri) ≡ true
    → contains (select (λ f. not (f.application == e.application && f.uri == e.uri)) xs) other
      ≡ false
unfolding select contains
drop-Lacks other e [] a u = refl
drop-Lacks other e (x ∷ xs) a u = ground (
  arith,
  drop-Lacks other e xs a u,
  ==_iff x.application other.application,
  ==_iff x.uri other.uri,
)

-- An event that is no Accessed event takes every older queued event of the same application and
-- resource out of the queue, also an Opened event: the thread never passes those on.
pub add_event_drops :
    (other e : Event) (s : Resources)
    → (e.kind == accessed) ≡ false
    → other.application ≡ e.application
    → other.uri ≡ e.uri
    → (e.timestamp == other.timestamp) ≡ false
    → contains (add_event e s).events other ≡ false
add_event_drops other e s kind application uri late =
    let s1 : Resources = drop_same_resource e s in
    let purged : Lacks other s1 =
      unfold drop_same_resource in
      rw kind (
        drop-Lacks other e s.events
          ((string_eq.beq_iff other.application e.application).1 application)
          ((string_eq.beq_iff other.uri e.uri).1 uri)) in
    let keeps : (f : Event) (u : Resources)
        → f.timestamp ≡ e.timestamp
        → Lacks other u
        → Lacks other (insert_event f u) =
      λ f u same. insert_event-Lacks other f u (rw same late) in
    elim (Bool-cases (not (e.wid == 0))) [
      | inl window ↦
          unfold add_event add_windowed in
          rw window (track_window-keeps (Lacks other) e keeps (window_of e s1) s1 purged)
      | inr free ↦ elim (Bool-cases (not (e.kind == focussed_in) && not (e.kind == focussed_out))) [
        | inl plain ↦ unfold add_event add_windowless in rw (free, plain) (keeps e s1 refl purged)
        | inr focus ↦ unfold add_event add_windowless in rw (free, focus) purged
      ]
    ]
