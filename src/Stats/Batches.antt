-- ===== src/Stats/Batches.antt =====
-- The statements and transactions of StatsPlugin (src/service/plugins/sqlite/StatsPlugin.cpp) while it
-- stores a list of events.
use kactivitymanagerd.Prelude.{
  ℕ, String, Bool, true, not, ◌||◌, Option, some, none, List, [], ◌∷◌, ◌++◌, ◌≡◌, refl, ap, ◌∙◌,
  ◌==◌, string_eq, nat_eq, any, map, Bool-cases, inl, inr, if◌then◌else◌,
}
use kactivitymanagerd.Event.{Event, accessed, opened, closed, user_event_type}
use kactivitymanagerd.Storage.Transactions.{Command, statement, locked, effect, effect-append}
use kactivitymanagerd.Stats.Tables.{ResourceEvent, ResourceInfo, World}
use kactivitymanagerd.Stats.Events.{
  Stats, to_secs, insert_resource_info, save_resource_title, save_resource_mimetype, detect_local,
  detect_resource_info, open_resource_event, close_resource_event, close_rows, store_event,
  store_events,
}

-- the two tables
pub record Rows : Type 0 where
  pub events : List ResourceEvent
  pub infos : List ResourceInfo

abbrev pub rows_of : Stats → Rows
rows_of s = record { events = s.events; infos = s.infos }

abbrev pub has_info : String → Rows → Bool
has_info uri r = any (λ i. i.targetted_resource == uri) r.infos

-- the query of insertResourceInfo, for a resource without a row
abbrev pub add_info : String → Rows → Rows
add_info uri r = if has_info uri r then r else record r {
  infos =
      r.infos
      ++ record {
        targetted_resource = uri;
        title = "";
        mimetype = "";
        auto_title = true;
        auto_mimetype = true;
      }
        ∷ [];
}

abbrev pub update_infos : (ResourceInfo → ResourceInfo) → String → Rows → Rows
update_infos f uri r = record r {
  infos = map (λ i. if i.targetted_resource == uri then f i else i) r.infos;
}

-- saveResourceTitle
abbrev pub title_commands : String → String → Bool → List (Command Rows)
title_commands uri text is_auto =
    statement (add_info uri)
    ∷ locked
        (statement (update_infos (λ i. record i { title = text; auto_title = is_auto }) uri) ∷ [])

-- saveResourceMimetype
abbrev pub mimetype_commands : String → String → Bool → List (Command Rows)
mimetype_commands uri text is_auto =
    statement (add_info uri)
    ∷ locked (
        statement (update_infos (λ i. record i { mimetype = text; auto_mimetype = is_auto }) uri)
        ∷ [])

-- detectResourceInfo
unfoldable pub detect_commands : World → String → Option String → Rows → List (Command Rows)
detect_commands w uri none r = []
detect_commands w uri (some file) r =
    let text = w.file_text uri in
    if not (w.exists file) || has_info file r
    then []
    else statement (add_info file)
      ∷ (mimetype_commands file (w.file_mimetype uri) true
          ++ title_commands file (if text == "" then uri else text) true)

-- the query of openResourceEvent
abbrev pub add_row : World → Event → Option ℕ → Rows → Rows
add_row w e end_time r = record r {
  events =
      r.events
      ++ record {
        used_activity = w.current_activity;
        initiating_agent = e.application;
        targetted_resource = e.uri;
        start = to_secs e.timestamp;
        finish = elim end_time [ none ↦ none | some t ↦ some (to_secs t) ];
      }
        ∷ [];
}

-- openResourceEvent
unfoldable pub open_commands : World → Event → Option ℕ → Rows → List (Command Rows)
open_commands w e end_time r =
    detect_commands w e.uri (w.local_file e.uri) r ++ statement (add_row w e end_time) ∷ []

-- the `switch` of addEvents
unfoldable pub store_commands : World → Event → Rows → List (Command Rows)
store_commands w e r =
    if e.kind == accessed
    then open_commands w e (some e.timestamp) r
    else if e.kind == opened
    then open_commands w e none r
    else if e.kind == closed
    then statement (λ r'. record r' {
      events = close_rows w.current_activity e.application e.uri (to_secs e.timestamp) r'.events;
    })
      ∷ []
    else []

-- the loop of addEvents
unfoldable pub events_commands : World → List Event → Rows → List (Command Rows)
events_commands w [] r = []
events_commands w (e ∷ es) r =
    let cs = store_commands w e r in cs ++ events_commands w es (effect cs r)

-- addEvents, for the events that it has accepted; it returns at once without any
unfoldable pub batch_commands : World → List Event → Rows → List (Command Rows)
batch_commands w [] r = []
batch_commands w (e ∷ es) r = locked (events_commands w (e ∷ es) r)

add_info-rows_of :
    (uri : String) (s : Stats) → add_info uri (rows_of s) ≡ rows_of (insert_resource_info uri s).1
unfolding insert_resource_info
add_info-rows_of uri s = elim (Bool-cases (has_info uri (rows_of s))) [
  | inl e ↦ rw e refl
  | inr e ↦ rw e refl
]

effect-title_commands :
    (uri text : String) (b : Bool) (s : Stats)
    → effect (title_commands uri text b) (rows_of s) ≡ rows_of (save_resource_title uri text b s)
unfolding effect save_resource_title
effect-title_commands uri text b s =
    ap (update_infos (λ i. record i { title = text; auto_title = b }) uri) (add_info-rows_of uri s)

effect-mimetype_commands :
    (uri text : String) (b : Bool) (s : Stats)
    → effect (mimetype_commands uri text b) (rows_of s)
      ≡ rows_of (save_resource_mimetype uri text b s)
unfolding effect save_resource_mimetype
effect-mimetype_commands uri text b s =
    ap (update_infos (λ i. record i { mimetype = text; auto_mimetype = b }) uri)
      (add_info-rows_of uri s)

effect-detect_commands :
    (w : World) (uri : String) (o : Option String) (s : Stats)
    → effect (detect_commands w uri o (rows_of s)) (rows_of s) ≡ rows_of (detect_local w uri o s)
unfolding effect detect_commands detect_local
effect-detect_commands w uri none s = refl
effect-detect_commands w uri (some file) s = elim (Bool-cases (w.exists file)) [
  | inr e ↦ rw e refl
  | inl e ↦ elim (Bool-cases (has_info file (rows_of s))) [
    | inl k ↦ unfold insert_resource_info in rw (e, k) refl
    | inr k ↦
        let text = w.file_text uri in
        let t = (insert_resource_info file s).1 in
        let typed = save_resource_mimetype file (w.file_mimetype uri) true t in
        let cs = mimetype_commands file (w.file_mimetype uri) true in
        let ds = title_commands file (if text == "" then uri else text) true in
        let new : (insert_resource_info file s).0 ≡ true =
          unfold insert_resource_info in rw k refl in
        rw (e, k, new)
          (ap (λ r. effect (cs ++ ds) r) (add_info-rows_of file s)
            ∙ effect-append cs ds (rows_of t)
            ∙ ap (effect ds) (effect-mimetype_commands file (w.file_mimetype uri) true t)
            ∙ effect-title_commands file (if text == "" then uri else text) true typed)
  ]
]

effect-open_commands :
    (w : World) (e : Event) (end_time : Option ℕ) (s : Stats)
    → effect (open_commands w e end_time (rows_of s)) (rows_of s)
      ≡ rows_of
          (open_resource_event w w.current_activity e.application e.uri e.timestamp end_time s)
unfolding effect open_commands open_resource_event detect_resource_info
effect-open_commands w e end_time s =
    effect-append (detect_commands w e.uri (w.local_file e.uri) (rows_of s)) _ (rows_of s)
    ∙ ap (add_row w e end_time) (effect-detect_commands w e.uri (w.local_file e.uri) s)

pub effect-store_commands :
    (w : World) (e : Event) (s : Stats)
    → effect (store_commands w e (rows_of s)) (rows_of s) ≡ rows_of (store_event w e s)
unfolding store_commands store_event
effect-store_commands w e s = elim (Bool-cases (e.kind == accessed)) [
  | inl a ↦ rw a (effect-open_commands w e (some e.timestamp) s)
  | inr a ↦ elim (Bool-cases (e.kind == opened)) [
    | inl o ↦ rw (a, o) (effect-open_commands w e none s)
    | inr o ↦ elim (Bool-cases (e.kind == closed)) [
      | inl k ↦ unfold effect close_resource_event in rw (a, o, k) refl
      | inr k ↦ elim (Bool-cases (e.kind == user_event_type)) [
        | inl u ↦ unfold effect in rw (a, o, k, u) refl
        | inr u ↦ unfold effect in rw (a, o, k, u) refl
      ]
    ]
  ]
]

pub effect-events_commands :
    (w : World) (es : List Event) (s : Stats)
    → effect (events_commands w es (rows_of s)) (rows_of s) ≡ rows_of (store_events w es s)
unfolding events_commands store_events
effect-events_commands w [] s = unfold effect in refl
effect-events_commands w (e ∷ es) s =
    let cs = store_commands w e (rows_of s) in
    effect-append cs (events_commands w es (effect cs (rows_of s))) (rows_of s)
    ∙ ap (λ r. effect (events_commands w es r) r) (effect-store_commands w e s)
    ∙ effect-events_commands w es (store_event w e s)
