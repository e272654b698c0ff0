-- ===== src/Stats/Recording.antt =====
-- What addEvents leaves in the tables.
use kactivitymanagerd.Prelude.{
  ℕ, String, Bool, true, false, ◌&&◌, ◌||◌, some, List, [], ◌∷◌, ◌++◌, ◌≡◌, refl, arith, ◌==◌,
  string_eq, nat_eq, select, select-append, any, any-append, ==_refl, map, contains, if◌then◌else◌,
}
use kactivitymanagerd.Event.{Event, closed}
use kactivitymanagerd.Stats.Tables.{ResourceEvent, ResourceInfo, World}
use kactivitymanagerd.Stats.Events.{
  Stats, accepted_event, validate_event, add_events, store_events, store_event, close_rows,
  close_resource_event, save_resource_title, insert_resource_info, remembers_nothing,
  detect_resource_info, detect_local, is_row_of, is_open, to_secs,
}

none_accepted :
    (w : World) (s : Stats) (es : List Event)
    → contains s.otr_activities w.current_activity ≡ true
    → select (accepted_event w s) es ≡ []
unfolding select accepted_event
none_accepted w s [] h = refl
none_accepted w s (e ∷ es) h = ground (arith, h, none_accepted w s es h)

-- While the current activity is off the record, addEvents changes nothing, whatever the events.
pub off_record_silent :
    (w : World) (es : List Event) (s : Stats)
    → contains s.otr_activities w.current_activity ≡ true
    → add_events w es s ≡ s
unfolding add_events store_events
off_record_silent w es s h = rw (none_accepted w s (map (validate_event w) es) h) (ground arith)

any_open-close_rows :
    (a p r : String) (t : ℕ) (es : List ResourceEvent)
    → any (λ e. is_row_of a p r e && is_open e) (close_rows a p r t es) ≡ false
unfolding any close_rows
any_open-close_rows a p r t [] = refl
any_open-close_rows a p r t (e ∷ es) = ground (arith, any_open-close_rows a p r t es)

store_events-append :
    (w : World) (es fs : List Event) (s : Stats)
    → store_events w (es ++ fs) s ≡ store_events w fs (store_events w es s)
unfolding store_events
store_events-append w [] fs s = refl
store_events-append w (e ∷ es) fs s = store_events-append w es fs (store_event w e s)

map-append : (f : Event → Event) (xs ys : List Event) → map f (xs ++ ys) ≡ map f xs ++ map f ys
map-append f [] ys = refl
map-append f (x ∷ xs) ys = rw (map-append f xs ys) refl

-- whether a row of the resource is open
abbrev pub has_open : String → Event → Stats → Bool
has_open activity e s = any (λ r. is_row_of activity e.application e.uri r && is_open r) s.events

store_event-closed :
    (w : World) (e : Event) (s : Stats)
    → (e.kind == closed) ≡ true
    → has_open w.current_activity e (store_event w e s) ≡ false
unfolding store_event close_resource_event
store_event-closed w e s h = ground (
  arith,
  h,
  any_open-close_rows w.current_activity e.application e.uri (to_secs e.timestamp) s.events,
)

pub kind-validate_event : (w : World) (e : Event) → (validate_event w e).kind ≡ e.kind
unfolding validate_event
kind-validate_event w e = ground arith

-- an accepted event at the end of the list is stored after the others
pub add_events-snoc :
    (w : World) (es : List Event) (e : Event) (s : Stats)
    → (s.block_all || remembers_nothing s.what_to_remember) ≡ false
    → accepted_event w s (validate_event w e) ≡ true
    → add_events w (es ++ e ∷ []) s
      ≡ store_event w
          (validate_event w e)
          (store_events w (select (accepted_event w s) (map (validate_event w) es)) s)
unfolding add_events store_events select
add_events-snoc w es e s on a =
    let before = select (accepted_event w s) (map (validate_event w) es) in
    rw
      (
        on,
        map-append (validate_event w) es (e ∷ []),
        select-append (accepted_event w s) (map (validate_event w) es) (validate_event w e ∷ []),
        a,
        store_events-append w before (validate_event w e ∷ []) s,
      )
      refl

-- When the last of the events is a Closed event that is accepted, and the plugin is not set to
-- remember nothing, addEvents leaves no open row for its application and (validated) resource in
-- the current activity, whatever the events before it.
pub closed_leaves_none_open :
    (w : World) (es : List Event) (e : Event) (s : Stats)
    → (s.block_all || remembers_nothing s.what_to_remember) ≡ false
    → (e.kind == closed) ≡ true
    → accepted_event w s (validate_event w e) ≡ true
    → has_open w.current_activity (validate_event w e) (add_events w (es ++ e ∷ []) s) ≡ false
closed_leaves_none_open w es e s on k a =
    let before = select (accepted_event w s) (map (validate_event w) es) in
    rw (add_events-snoc w es e s on a) (
      store_event-closed w (validate_event w e) (store_events w before s)
        (rw (kind-validate_event w e) k))

any-map-titled :
    (uri text : String) (b : Bool) (is : List ResourceInfo)
    → any
        (λ i. i.targetted_resource == uri)
        (map
          (λ i.
            if i.targetted_resource == uri then record i { title = text; auto_title = b } else i)
          is)
      ≡ any (λ i. i.targetted_resource == uri) is
unfolding any
any-map-titled uri text b [] = refl
any-map-titled uri text b (i ∷ is) = ground (arith, any-map-titled uri text b is)

has_info-save_resource_title :
    (uri text : String) (b : Bool) (s : Stats)
    → any (λ i. i.targetted_resource == uri) (save_resource_title uri text b s).infos ≡ true
unfolding save_resource_title insert_resource_info any
has_info-save_resource_title uri text b s =
    rw (any-map-titled uri text b (insert_resource_info uri s).1.infos) (
      ground (
        arith,
        any-append (λ (i : ResourceInfo). i.targetted_resource == uri) s.infos
            (record {
              targetted_resource = uri;
              title = "";
              mimetype = "";
              auto_title = true;
              auto_mimetype = true;
            }
              ∷ []),
        ==_refl uri,
      ))

-- A title that was saved for a local file is not replaced by the title that detectResourceInfo
-- reads from the file: once saved, opening the file changes nothing in ResourceInfo.
pub title_kept :
    (w : World) (uri file text : String) (b : Bool) (s : Stats)
    → w.local_file uri ≡ some file
    → detect_resource_info w uri (save_resource_title file text b s)
      ≡ save_resource_title file text b s
unfolding detect_resource_info detect_local insert_resource_info
title_kept w uri file text b s l = rw (l, has_info-save_resource_title file text b s) (ground arith)
