-- ===== src/Stats/Pipeline.antt =====
-- The way of an event from RegisterResourceEvent (src/service/Resources.cpp) through the queue and
-- the thread to the tables of StatsPlugin (src/service/plugins/sqlite/StatsPlugin.cpp).
use kactivitymanagerd.Prelude.{
  ℕ, String, true, false, ◌||◌, some, List, [], ◌∷◌, ◌++◌, ◌≡◌, refl, ap, ◌∙◌, arith, ◌==◌,
  string_eq, nat_eq, select, map,
}
use kactivitymanagerd.Event.{Event, accessed, event_beq}
use kactivitymanagerd.Resources.Events.{
  Resources, register_resource_event, run_round, add_event, drop_same_resource, add_windowed,
  add_windowless, track_window, insert_event,
}
use kactivitymanagerd.Stats.Tables.{ResourceEvent, World}
use kactivitymanagerd.Stats.Events.{
  Stats, accepted_event, validate_event, add_events, store_events, store_event, open_resource_event,
  remembers_nothing, detect_resource_info, detect_local, save_resource_title,
  save_resource_mimetype, insert_resource_info, to_secs,
}
use kactivitymanagerd.Stats.Recording.{add_events-snoc, kind-validate_event}

events-detect_resource_info :
    (w : World) (uri : String) (s : Stats) → (detect_resource_info w uri s).events ≡ s.events
unfolding detect_resource_info detect_local save_resource_title save_resource_mimetype
    insert_resource_info
events-detect_resource_info w uri s = ground arith

-- the event that RegisterResourceEvent makes
abbrev pub access : ℕ → String → ℕ → String → Event
access now application wid uri = record {
  application = application;
  wid = wid;
  uri = uri;
  kind = accessed;
  timestamp = now;
}

-- the row of an access
abbrev pub access_row : World → ℕ → String → String → ResourceEvent
access_row w now application uri = record {
  used_activity = w.current_activity;
  initiating_agent = application;
  targetted_resource = uri;
  start = to_secs now;
  finish = some (to_secs now);
}

events-store_event :
    (w : World) (e : Event) (s : Stats)
    → (e.kind == accessed) ≡ true
    → (store_event w e s).events ≡ s.events ++ access_row w e.timestamp e.application e.uri ∷ []
unfolding store_event open_resource_event
events-store_event w e s k = rw (k, events-detect_resource_info w e.uri s) refl

kept-validate_event :
    (w : World) (e : Event)
    → ((validate_event w e).timestamp ≡ e.timestamp)
      × ((validate_event w e).application ≡ e.application)
unfolding validate_event
kept-validate_event w e = (ground arith, ground arith)

queued :
    (now : ℕ) (application : String) (wid : ℕ) (uri : String) (r : Resources)
    → (application == "") ≡ false
    → (uri == "") ≡ false
    → event_beq r.last_event (access now application wid uri) ≡ false
    → ((register_resource_event now application wid uri accessed r).events
        ≡ r.events ++ access now application wid uri ∷ [])
      × ((register_resource_event now application wid uri accessed r).processed ≡ r.processed)
unfolding register_resource_event add_event drop_same_resource add_windowed add_windowless
    track_window insert_event
queued now application wid uri r a u new = (ground (arith, a, u, new), ground (arith, a, u, new))

-- a round of the thread passes the whole queue on, when it is not empty
run_round-snoc :
    (r : Resources) (es : List Event) (e : Event)
    → r.events ≡ es ++ e ∷ []
    → (run_round r).processed ≡ r.processed ++ (es ++ e ∷ []) ∷ []
unfolding run_round
run_round-snoc r [] e h = rw h refl
run_round-snoc r (x ∷ es) e h = rw h refl

module _ (w : World) (now : ℕ) (application : String) (wid : ℕ) (uri : String) (r : Resources)
    (s : Stats) where
  -- An access that an application registers for a resource, and that is not the last event over
  -- again, is passed on by the next round of the thread, in one list, behind all the events that
  -- waited. If the plugin accepts it and is not set to remember nothing, addEvents on this list leaves
  -- the rows of ResourceEvent that it leaves for the events that waited, and one more: in the current
  -- activity, with the validated resource, begun and ended at the time of the call in seconds.
  pub access_recorded :
      (application == "") ≡ false
      → (uri == "") ≡ false
      → event_beq r.last_event (access now application wid uri) ≡ false
      → (s.block_all || remembers_nothing s.what_to_remember) ≡ false
      → accepted_event w s (validate_event w (access now application wid uri)) ≡ true
      → let e = access now application wid uri in
        ((run_round (register_resource_event now application wid uri accessed r)).processed
          ≡ r.processed ++ (r.events ++ e ∷ []) ∷ [])
        × ((add_events w (r.events ++ e ∷ []) s).events
            ≡ (add_events w r.events s).events
              ++ access_row w now application (validate_event w e).uri ∷ [])
  access_recorded a u new on ok =
      let e = access now application wid uri in
      let r' = register_resource_event now application wid uri accessed r in
      let q = queued now application wid uri r a u new in
      let before =
        store_events w (select (accepted_event w s) (map (validate_event w) r.events)) s in
      let waited : add_events w r.events s ≡ before = unfold add_events in rw on refl in
      (
        run_round-snoc r' r.events e q.0 ∙ ap (λ p. p ++ (r.events ++ e ∷ []) ∷ []) q.1,
        ap (λ (t : Stats). t.events) (add_events-snoc w r.events e s on ok)
            ∙ events-store_event w (validate_event w e) before (rw (kind-validate_event w e) refl)
            ∙ rw ((kept-validate_event w e).0, (kept-validate_event w e).1, waited) refl,
      )
