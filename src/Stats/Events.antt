-- ===== src/Stats/Events.antt =====
-- StatsPlugin (src/service/plugins/sqlite/StatsPlugin.cpp): which events are kept, and the rows of
-- ResourceEvent and ResourceInfo that they become. QDateTime::toSecsSinceEpoch divides by 1000.
use text.Mathlib.Text.{starts_with}
use kactivitymanagerd.Prelude.{
  ℕ, ◌/◌, String, Bool, true, false, not, ◌&&◌, ◌||◌, Option, none, some, List, [], ◌∷◌, ◌++◌, ◌==◌,
  string_eq, nat_eq, select, any, map, contains, if◌then◌else◌,
}
use kactivitymanagerd.Event.{Event, accessed, opened, closed, user_event_type}
use kactivitymanagerd.Stats.Tables.{ResourceEvent, ResourceInfo, World}
use kactivitymanagerd.Stats.Maintainer.{ResourceTree, process_resource}

-- StatsPlugin::WhatToRemember
pub data WhatToRemember : Type 0 where
  all_applications specific_applications no_applications : WhatToRemember

abbrev pub is_specific : WhatToRemember → Bool
is_specific specific_applications = true
is_specific _ = false

abbrev pub remembers_nothing : WhatToRemember → Bool
remembers_nothing no_applications = true
remembers_nothing _ = false

-- The members of StatsPlugin that the handling of events reads, the two tables, and
-- scheduledResources of ResourceScoreMaintainer. m_apps is a sorted set, so binary_search is
-- membership.
pub record Stats : Type 0 where
  pub blocked_by_default : Bool
  pub block_all : Bool
  pub what_to_remember : WhatToRemember
  pub apps : List String
  pub url_filters : List (List ℕ)
  pub otr_activities : List String
  pub events : List ResourceEvent
  pub infos : List ResourceInfo
  pub scheduled : ResourceTree

abbrev pub to_secs : ℕ → ℕ
to_secs t = t / 1000

-- StatsPlugin::insertResourceInfo
unfoldable pub insert_resource_info : String → Stats → Bool × Stats
insert_resource_info uri s =
    if any (λ i. i.targetted_resource == uri) s.infos then (false, s) else (
      true,
      record s {
        infos =
            s.infos
            ++ record {
              targetted_resource = uri;
              title = "";
              mimetype = "";
              auto_title = true;
              auto_mimetype = true;
            }
              ∷ [];
      },
    )

-- StatsPlugin::saveResourceTitle
unfoldable pub save_resource_title : String → String → Bool → Stats → Stats
save_resource_title uri text is_auto s =
    let t = (insert_resource_info uri s).1 in
    record t {
      infos =
          map
            (λ i.
              if i.targetted_resource == uri
              then record i { title = text; auto_title = is_auto }
              else i)
            t.infos;
    }

-- StatsPlugin::saveResourceMimetype
unfoldable pub save_resource_mimetype : String → String → Bool → Stats → Stats
save_resource_mimetype uri text is_auto s =
    let t = (insert_resource_info uri s).1 in
    record t {
      infos =
          map
            (λ i.
              if i.targetted_resource == uri
              then record i { mimetype = text; auto_mimetype = is_auto }
              else i)
            t.infos;
    }

-- the rest of detectResourceInfo, for a path that is local
unfoldable pub detect_local : World → String → Option String → Stats → Stats
detect_local w uri none s = s
detect_local w uri (some file) s =
    let inserted = insert_resource_info file s in
    let typed = save_resource_mimetype file (w.file_mimetype uri) true inserted.1 in
    let text = w.file_text uri in
    if not (w.exists file)
    then s
    else if inserted.0
    then save_resource_title file (if text == "" then uri else text) true typed
    else inserted.1

-- StatsPlugin::detectResourceInfo
unfoldable pub detect_resource_info : World → String → Stats → Stats
detect_resource_info w uri s = detect_local w uri (w.local_file uri) s

-- StatsPlugin::openResourceEvent; a null `end` is `none`
unfoldable pub open_resource_event : World → String → String → String → ℕ → Option ℕ → Stats → Stats
open_resource_event w activity agent resource start_time end_time s =
    let t = detect_resource_info w resource s in
    record t {
      events =
          t.events
          ++ record {
            used_activity = activity;
            initiating_agent = agent;
            targetted_resource = resource;
            start = to_secs start_time;
            finish = elim end_time [ none ↦ none | some e ↦ some (to_secs e) ];
          }
            ∷ [];
    }

abbrev pub is_open : ResourceEvent → Bool
is_open e = elim e.finish [ none ↦ true | some t ↦ false ]

abbrev pub is_row_of : String → String → String → ResourceEvent → Bool
is_row_of activity agent resource e =
    activity == e.used_activity && agent == e.initiating_agent && resource == e.targetted_resource

-- the query of closeResourceEvent
unfoldable pub close_rows : String → String → String → ℕ → List ResourceEvent → List ResourceEvent
close_rows activity agent resource end_secs [] = []
close_rows activity agent resource end_secs (e ∷ es) =
    let rest = close_rows activity agent resource end_secs es in
    if is_row_of activity agent resource e && is_open e
    then record e { finish = some end_secs } ∷ rest
    else e ∷ rest

-- StatsPlugin::closeResourceEvent
unfoldable pub close_resource_event : String → String → String → ℕ → Stats → Stats
close_resource_event activity agent resource end_time s = record s {
  events = close_rows activity agent resource (to_secs end_time) s.events;
}

-- StatsPlugin::acceptedEvent
unfoldable pub accepted_event : World → Stats → Event → Bool
accepted_event w s e = not (
    e.uri == ""
    || contains s.otr_activities w.current_activity
    || any (λ f. w.is_filtered f e.uri) s.url_filters
    || is_specific s.what_to_remember
      && (if s.blocked_by_default
          then not (contains s.apps e.application)
          else contains s.apps e.application))

-- StatsPlugin::validateEvent
unfoldable pub validate_event : World → Event → Event
validate_event w e =
    let uri = if starts_with e.uri "file://" then w.to_local_file e.uri else e.uri in
    if starts_with uri "/"
    then record e { uri = if w.exists uri then w.canonical_file_path uri else "" }
    else record e { uri = uri }

abbrev pub schedule : World → Event → Stats → Stats
schedule w e s = record s {
  scheduled = process_resource w.current_activity e.uri e.application s.scheduled;
}

-- the `switch` of addEvents
unfoldable pub store_event : World → Event → Stats → Stats
store_event w e s =
    if e.kind == accessed
    then schedule w e (
        open_resource_event w w.current_activity e.application e.uri e.timestamp (some e.timestamp)
          s)
    else if e.kind == opened
    then open_resource_event w w.current_activity e.application e.uri e.timestamp none s
    else if e.kind == closed
    then schedule w e (close_resource_event w.current_activity e.application e.uri e.timestamp s)
    else if e.kind == user_event_type
    then schedule w e s
    else s

unfoldable pub store_events : World → List Event → Stats → Stats
store_events w [] s = s
store_events w (e ∷ es) s = store_events w es (store_event w e s)

-- StatsPlugin::addEvents
unfoldable pub add_events : World → List Event → Stats → Stats
add_events w es s =
    if s.block_all || remembers_nothing s.what_to_remember
    then s
    else store_events w (select (accepted_event w s) (map (validate_event w) es)) s
