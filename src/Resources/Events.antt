-- ===== src/Resources/Events.antt =====
-- The state of Resources::Private and its methods. Each reading of the clock is an argument.
use kactivitymanagerd.Prelude.{
  ℕ, suc, String, Bool, true, false, not, ◌&&◌, ◌||◌, List, [], ◌∷◌, ◌++◌, ◌==◌, nat_eq, string_eq,
  ltb, Hash, lookup, insert, remove, has_key, or_default, select, contains, is_empty, if◌then◌else◌,
}
use kactivitymanagerd.Event.{
  Event, accessed, opened, closed, focussed_in, focussed_out, last_event_type, derive_with_type,
  event_eq, event_beq,
}

-- Resources::Private::WindowData
pub record WindowData : Type 0 where
  pub resources : List String
  pub focussed_resource : String
  pub application : String

abbrev pub no_data : WindowData
no_data = record { resources = []; focussed_resource = ""; application = "" }

-- `events` is the queue in front of the thread; `registered` the events of the emitted
-- RegisteredResourceEvent, and `processed` the lists of the emitted ProcessedResourceEvents, both
-- oldest first; `mimetypes` and `titles` are the emitted RegisteredResourceMimetype and
-- RegisteredResourceTitle, newest first.
pub record Resources : Type 0 where
  pub events : List Event
  pub last_event : Event
  pub windows : Hash ℕ WindowData
  pub focussed_window : ℕ
  pub thread_running : Bool
  pub registered : List Event
  pub processed : List (List Event)
  pub mimetypes : List (String × String)
  pub titles : List (String × String)

-- Resources::Private::Private, with Event() at the time of the start
unfoldable pub init : ℕ → Resources
init now = record {
  events = [];
  last_event = record { application = ""; wid = 0; uri = ""; kind = accessed; timestamp = now };
  windows = [];
  focussed_window = 0;
  thread_running = false;
  registered = [];
  processed = [];
  mimetypes = [];
  titles = [];
}

-- Resources::Private::insertEvent
unfoldable pub insert_event : Event → Resources → Resources
insert_event e s = if event_beq s.last_event e then s else record s {
  last_event = e;
  events = s.events ++ e ∷ [];
  registered = s.registered ++ e ∷ [];
}

-- the first block of addEvent: `kamd::utils::remove_if` on the queue
unfoldable pub drop_same_resource : Event → Resources → Resources
drop_same_resource e s =
    if not (e.kind == accessed)
    then record s {
      events =
          select (λ other. not (other.application == e.application && other.uri == e.uri)) s.events;
    }
    else s

-- the `switch` of addEvent: what is inserted, and what becomes of the window
unfoldable pub track_window : Event → WindowData → Resources → Resources × WindowData
unfolding insert_event
track_window e window s =
    if e.kind == opened
    then (if window.focussed_resource == ""
        then (
          insert_event (derive_with_type e focussed_in) (insert_event e s),
          record window { focussed_resource = e.uri },
        )
        else (insert_event e s, window))
    else if e.kind == focussed_in
    then (
      insert_event e (
          if not (contains window.resources e.uri)
          then insert_event (derive_with_type e opened) s
          else s),
      record window { focussed_resource = e.uri },
    )
    else if e.kind == closed
    then (if window.focussed_resource == e.uri
        then (
          insert_event e (insert_event (derive_with_type e focussed_out) s),
          record window { focussed_resource = "" },
        )
        else (insert_event e s, window))
    else if e.kind == focussed_out
    then (
      insert_event e s,
      if window.focussed_resource == e.uri
          then record window { focussed_resource = "" }
          else window,
    )
    else (insert_event e s, window)

-- `windows[newEvent.wid]`, with its new application
abbrev pub window_of : Event → Resources → WindowData
window_of e s = record (or_default (lookup e.wid s.windows) no_data) { application = e.application }

unfoldable pub add_windowed : Event → Resources → Resources
unfolding track_window
add_windowed e s =
    let r = track_window e (window_of e s) s in
    record (r.0) { windows = insert e.wid r.1 s.windows }

unfoldable pub add_windowless : Event → Resources → Resources
unfolding insert_event
add_windowless e s =
    if not (e.kind == focussed_in) && not (e.kind == focussed_out) then insert_event e s else s

-- Resources::Private::addEvent
unfoldable pub add_event : Event → Resources → Resources
unfolding drop_same_resource add_windowed add_windowless
add_event e s =
    let s1 = drop_same_resource e s in
    let s2 = if not (e.wid == 0) then add_windowed e s1 else add_windowless e s1 in
    record s2 { thread_running = true }

-- Resources::RegisterResourceEvent
unfoldable pub register_resource_event : ℕ → String → ℕ → String → ℕ → Resources → Resources
unfolding add_event
register_resource_event now application wid uri event s =
    if ltb last_event_type event || uri == "" || application == ""
    then s
    else add_event
        (record { application = application; wid = wid; uri = uri; kind = event; timestamp = now })
        s

-- the loop of windowClosed over the resources of the window; `clock i` is the time of its `i`th event
unfoldable pub close_resources : (ℕ → ℕ) → ℕ → ℕ → List String → Resources → Resources
close_resources clock i wid [] s = s
close_resources clock i wid (uri ∷ uris) s = close_resources clock (suc i) wid uris (
    register_resource_event (clock i) (or_default (lookup wid s.windows) no_data).application wid
      uri closed s)

-- Resources::Private::windowClosed
unfoldable pub window_closed : (ℕ → ℕ) → ℕ → Resources → Resources
window_closed clock wid s =
    if not (has_key s.windows wid)
    then s
    else (let s1 = if s.focussed_window == wid then record s { focussed_window = 0 } else s in
        let s2 =
          close_resources clock 0 wid (or_default (lookup wid s1.windows) no_data).resources s1 in
        record s2 { windows = remove wid s2.windows })

-- the two blocks of activeWindowChanged that insert an event for the focused window
unfoldable pub focus_event : ℕ → ℕ → Resources → Resources
unfolding insert_event
focus_event now event s =
    let window = or_default (lookup s.focussed_window s.windows) no_data in
    if has_key s.windows s.focussed_window && not (window.focussed_resource == "")
    then insert_event
        (record {
          application = window.application;
          wid = s.focussed_window;
          uri = window.focussed_resource;
          kind = event;
          timestamp = now;
        })
        s
    else s

-- Resources::Private::activeWindowChanged
unfoldable pub active_window_changed : ℕ → ℕ → ℕ → Resources → Resources
active_window_changed now later wid s =
    if wid == s.focussed_window
    then s
    else focus_event later focussed_in
        (record (focus_event now focussed_out s) { focussed_window = wid })

-- one round of the loop of Resources::Private::run, after its sleep
unfoldable pub run_round : Resources → Resources
run_round s =
    if is_empty s.events
    then record s { thread_running = false }
    else record s { events = []; processed = s.processed ++ s.events ∷ [] }

-- Resources::RegisterResourceMimetype
unfoldable pub register_resource_mimetype : String → String → Resources → Resources
register_resource_mimetype uri mimetype s =
    if not (mimetype == "") then s else record s { mimetypes = (uri, mimetype) ∷ s.mimetypes }

-- Resources::RegisterResourceTitle; `length` is QString::length
unfoldable pub register_resource_title : (String → ℕ) → String → String → Resources → Resources
register_resource_title length uri title s =
    if ltb (length title) 3 then s else record s { titles = (uri, title) ∷ s.titles }

-- The calls and signals that Resources answers, and the rounds of its thread.
pub data Call : Type 0 where
  register : ℕ → String → ℕ → String → ℕ → Call
  close_window : (ℕ → ℕ) → ℕ → Call
  activate_window : ℕ → ℕ → ℕ → Call
  thread_round : Call
  register_mimetype register_title : String → String → Call

module _ (length : String → ℕ) where
  unfoldable pub perform : Call → Resources → Resources
  perform (register now application wid uri event) s =
      register_resource_event now application wid uri event s
  perform (close_window clock wid) s = window_closed clock wid s
  perform (activate_window now later wid) s = active_window_changed now later wid s
  perform thread_round s = if s.thread_running then run_round s else s
  perform (register_mimetype uri m) s = register_resource_mimetype uri m s
  perform (register_title uri t) s = register_resource_title length uri t s

  unfoldable pub run : List Call → Resources → Resources
  run [] s = s
  run (k ∷ ks) s = run ks (perform k s)
