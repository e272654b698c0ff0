-- ===== src/Resources/Windows.antt =====
-- What the windows of Resources::Private hold.
use kactivitymanagerd.Prelude.{
  ℕ, String, not, List, [], ◌∷◌, ◌≡◌, refl, arith, ◌==◌, nat_eq, string_eq, lookup, insert, remove,
  has_key, or_default, if◌then◌else◌, lookup-insert, lookup-remove, Bool-cases, inl, inr,
}
use kactivitymanagerd.Event.{Event, focussed_in, focussed_out}
use kactivitymanagerd.Resources.Events.{
  WindowData, no_data, Resources, init, insert_event, drop_same_resource, track_window, window_of,
  add_windowed, add_windowless, add_event, register_resource_event, close_resources, window_closed,
  focus_event, active_window_changed, run_round, register_resource_mimetype,
  register_resource_title, Call, register, close_window, activate_window, thread_round,
  register_mimetype, register_title, perform, run,
}

-- the entry of a window, or an empty one
abbrev pub data_of : ℕ → Resources → WindowData
data_of w s = or_default (lookup w s.windows) no_data

-- No window has a resource.
abbrev pub HoldsNone : Resources → Type 0
HoldsNone s = (w : ℕ) → (data_of w s).resources ≡ []

pub windows-insert_event : (e : Event) (s : Resources) → (insert_event e s).windows ≡ s.windows
unfolding insert_event
windows-insert_event e s = ground arith

resources-track_window :
    (e : Event) (d : WindowData) (s : Resources) → (track_window e d s).1.resources ≡ d.resources
unfolding track_window
resources-track_window e d s = ground arith

insert-HoldsNone :
    (w : ℕ) (d : WindowData) (s t : Resources)
    → d.resources ≡ []
    → HoldsNone s
    → t.windows ≡ insert w d s.windows
    → HoldsNone t
insert-HoldsNone w d s t e h f v = ground (arith, lookup-insert w v d s.windows, h v)

windows-drop : (e : Event) (s : Resources) → (drop_same_resource e s).windows ≡ s.windows
unfolding drop_same_resource
windows-drop e s = ground arith

same-HoldsNone : (s t : Resources) → t.windows ≡ s.windows → HoldsNone s → HoldsNone t
same-HoldsNone s t e h v = rw e (h v)

add_windowed-HoldsNone : (e : Event) (s : Resources) → HoldsNone s → HoldsNone (add_windowed e s)
add_windowed-HoldsNone e s h =
    insert-HoldsNone e.wid (track_window e (window_of e s) s).1 s (add_windowed e s)
      (rw (resources-track_window e (window_of e s) s) (h e.wid)) h (unfold add_windowed in refl)

add_windowless-HoldsNone :
    (e : Event) (s : Resources) → HoldsNone s → HoldsNone (add_windowless e s)
add_windowless-HoldsNone e s h =
    same-HoldsNone s (add_windowless e s) (unfold add_windowless in ground arith) h

add_event-HoldsNone : (e : Event) (s : Resources) → HoldsNone s → HoldsNone (add_event e s)
add_event-HoldsNone e s h =
    let s1 : Resources = drop_same_resource e s in
    let h1 : HoldsNone s1 = same-HoldsNone s s1 (windows-drop e s) h in
    elim (Bool-cases (not (e.wid == 0))) [
      | inl window ↦ unfold add_event in rw window (add_windowed-HoldsNone e s1 h1)
      | inr free ↦ unfold add_event in rw free (add_windowless-HoldsNone e s1 h1)
    ]

register-HoldsNone :
    (now : ℕ) (application : String) (wid : ℕ) (uri : String) (event : ℕ) (s : Resources)
    → HoldsNone s
    → HoldsNone (register_resource_event now application wid uri event s)
register-HoldsNone now application wid uri event s h v =
    unfold register_resource_event in
    ground (
      arith,
      h v,
      add_event-HoldsNone
          (record {
            application = application;
            wid = wid;
            uri = uri;
            kind = event;
            timestamp = now;
          })
          s h v,
    )

-- A window that closes has no resource to close.
close_resources-none :
    (clock : ℕ → ℕ) (w i : ℕ) (s : Resources)
    → HoldsNone s
    → close_resources clock i w (data_of w s).resources s ≡ s
unfolding close_resources
close_resources-none clock w i s h = rw (h w)

unfocus-HoldsNone :
    (w : ℕ) (s : Resources)
    → HoldsNone s
    → HoldsNone (if s.focussed_window == w then record s { focussed_window = 0 } else s)
unfocus-HoldsNone w s h =
    same-HoldsNone s (if s.focussed_window == w then record s { focussed_window = 0 } else s)
      (ground arith) h

-- the state that windowClosed leaves, the loop over the resources aside
abbrev closed_window : ℕ → Resources → Resources
closed_window w s =
    let s1 = if s.focussed_window == w then record s { focussed_window = 0 } else s in
    record s1 { windows = remove w s1.windows }

window_closed-closed_window :
    (clock : ℕ → ℕ) (w : ℕ) (s : Resources)
    → HoldsNone s
    → window_closed clock w s ≡ (if has_key s.windows w then closed_window w s else s)
window_closed-closed_window clock w s h = elim (Bool-cases (has_key s.windows w)) [
  | inl known ↦
      unfold window_closed in
      rw (
        known,
        close_resources-none clock w 0
            (if s.focussed_window == w then record s { focussed_window = 0 } else s)
            (unfocus-HoldsNone w s h),
      )
  | inr unknown ↦ unfold window_closed in rw unknown
]

closed_window-HoldsNone : (w : ℕ) (s : Resources) → HoldsNone s → HoldsNone (closed_window w s)
closed_window-HoldsNone w s h v = ground (arith, lookup-remove w v s.windows, h v)

windows-focus_event :
    (now event : ℕ) (s : Resources) → (focus_event now event s).windows ≡ s.windows
unfolding focus_event
windows-focus_event now event s = ground arith

active-HoldsNone :
    (now later w : ℕ) (s : Resources)
    → HoldsNone s
    → HoldsNone (active_window_changed now later w s)
active-HoldsNone now later w s h =
    same-HoldsNone s (active_window_changed now later w s)
      (unfold active_window_changed in
        ground (
          arith,
          windows-focus_event now focussed_out s,
          windows-focus_event later focussed_in
              (record (focus_event now focussed_out s) { focussed_window = w }),
        ))
      h

module _ (length : String → ℕ) where
  pub perform-HoldsNone : (k : Call) (s : Resources) → HoldsNone s → HoldsNone (perform length k s)
  unfolding perform
  perform-HoldsNone (register now a w u e) s h = register-HoldsNone now a w u e s h
  perform-HoldsNone (close_window clock w) s h =
      rw (window_closed-closed_window clock w s h)
        (λ v. ground (arith, h v, closed_window-HoldsNone w s h v))
  perform-HoldsNone (activate_window now later w) s h = active-HoldsNone now later w s h
  perform-HoldsNone thread_round s h =
      same-HoldsNone s (perform length thread_round s) (unfold run_round in ground arith) h
  perform-HoldsNone (register_mimetype u m) s h =
      same-HoldsNone s (perform length (register_mimetype u m) s)
        (unfold register_resource_mimetype in ground arith) h
  perform-HoldsNone (register_title u t) s h =
      same-HoldsNone s (perform length (register_title u t) s)
        (unfold register_resource_title in ground arith) h

  pub run-HoldsNone : (ks : List Call) (s : Resources) → HoldsNone s → HoldsNone (run length ks s)
  unfolding run
  run-HoldsNone [] s h = h
  run-HoldsNone (k ∷ ks) s h = run-HoldsNone ks (perform length k s) (perform-HoldsNone k s h)

  -- Whatever was registered since the start, closing a window registers no event: the set of the
  -- resources of a window, which windowClosed goes through, is never filled.
  pub window_closed_silent :
      (start : ℕ) (ks : List Call) (clock : ℕ → ℕ) (w : ℕ)
      → let s = run length ks (init start) in (window_closed clock w s).registered ≡ s.registered
  window_closed_silent start ks clock w =
      let s : Resources = run length ks (init start) in
      let h : HoldsNone s = run-HoldsNone ks (init start) (unfold init lookup in λ v. refl) in
      rw (window_closed-closed_window clock w s h) (ground arith)
