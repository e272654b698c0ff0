-- ===== src/Tests/Statistics.antt =====
-- The sqlite plugin at fixed inputs.
use kactivitymanagerd.Prelude.{
  ℕ, ◌+◌, ◌*◌, ◌-◌, ◌<◌, arith, lookup, any, ◌||◌, String, true, false, none, some, List, [], ◌∷◌,
  ◌++◌, ◌≡◌, refl, string_eq, nat_eq, contains, select, map, inl, inr,
}
use kactivitymanagerd.Event.{Event, opened, closed}
use kactivitymanagerd.Stats.Tables.{ResourceLink, ResourceEvent, World, link_eq}
use kactivitymanagerd.Stats.Links.{
  validate_arguments, validate_resource, validate_names, special_activity, is_known_activity,
  is_resource_linked_to_activity, link_resource_to_activity, unlink_resource_from_activity,
}
use kactivitymanagerd.Stats.Linking.{
  stored, refers, link-is_linked, unlink-is_linked, any_never_linked, link, perform_all, no_links,
}
use kactivitymanagerd.Stats.Patterns.{
  star, parse_star_pattern, parse_star_pattern-pieces, escape_sqlite_like_pattern, escape_unit,
  pieces, join, percent,
}
use kactivitymanagerd.Stats.Scores.{
  Scoring, ScoreKey, key_eq, new_cache, update, is_cache_of, HaveBegun, first_update_zero,
}
use kactivitymanagerd.Stats.Maintainer.{
  ResourceTree, resources_of, process_resources, scheduled_updated,
}
use kactivitymanagerd.Stats.Events.{
  Stats, all_applications, add_events, accepted_event, validate_event, is_open,
}
use kactivitymanagerd.Stats.Recording.{has_open, closed_leaves_none_open}
use kactivitymanagerd.Stats.Deletion.{History, Clock, delete_recent_stats}
use kactivitymanagerd.Stats.History.{delete_recent_stats_keeps_open}

abbrev pub world : World
world = record {
  to_local_file = λ url. url;
  exists = λ path. true;
  canonical_file_path = λ path. path;
  remove_text = λ text part. text;
  to_base64 = λ text. text;
  local_file = λ uri. some uri;
  file_mimetype = λ uri. "text/plain";
  file_text = λ uri. uri;
  is_filtered = λ filter uri. false;
  current_activity = "a";
  list_activities = "a" ∷ "b" ∷ [];
}

abbrev notes : ResourceLink
notes = record { used_activity = ":current"; initiating_agent = ""; targetted_resource = "/notes" }

abbrev notes_row : ResourceLink
notes_row = record {
  used_activity = "a";
  initiating_agent = ":global";
  targetted_resource = "/notes";
}

abbrev any_notes : ResourceLink
any_notes = record notes { used_activity = ":any" }

abbrev any_row : ResourceLink
any_row = record notes_row { used_activity = ":any" }

notes_valid : validate_arguments world notes ≡ some notes_row
unfolding validate_arguments validate_resource validate_names special_activity is_known_activity
    contains
notes_valid = refl

any_notes_valid : validate_arguments world any_notes ≡ some any_row
unfolding validate_arguments validate_resource validate_names special_activity is_known_activity
any_notes_valid = refl

link-is_linked_example :
    is_resource_linked_to_activity world notes (link_resource_to_activity world notes no_links) ≡ (
      is_resource_linked_to_activity world notes no_links
      || refers (validate_arguments world notes) (stored notes_row))
link-is_linked_example = link-is_linked world notes notes_row notes no_links notes_valid

unlink-is_linked_example :
    is_resource_linked_to_activity world notes (
      unlink_resource_from_activity world any_notes
        (link_resource_to_activity world notes no_links))
    ≡ false
unlink-is_linked_example =
    unlink-is_linked world any_notes any_row notes notes_row
      (link_resource_to_activity world notes no_links) any_notes_valid (inr (inl refl)) notes_valid
      refl refl (inr refl)

any_never_linked_example :
    is_resource_linked_to_activity world any_notes
      (perform_all ((world, link any_notes) ∷ []) no_links)
    ≡ false
any_never_linked_example =
    any_never_linked ((world, link any_notes) ∷ []) world any_notes any_row any_notes_valid refl

-- the text `a_*\*b`
abbrev pattern_text : List ℕ
pattern_text = 97 ∷ 95 ∷ 42 ∷ 92 ∷ 42 ∷ 98 ∷ []

escape_empty : escape_sqlite_like_pattern [] ≡ []
unfolding escape_unit
escape_empty = refl

parse_star_pattern-pieces_example :
    (join (star ∷ []) (pieces false [] pattern_text) ≡ pattern_text)
    × (parse_star_pattern escape_sqlite_like_pattern (percent ∷ []) pattern_text
        ≡ join (percent ∷ []) (map escape_sqlite_like_pattern (pieces false [] pattern_text)))
parse_star_pattern-pieces_example =
    parse_star_pattern-pieces escape_sqlite_like_pattern (percent ∷ []) pattern_text escape_empty

abbrev pub whole : Scoring ℕ ℕ
whole = record {
  zero_score = 0;
  add = λ x y. x + y;
  multiply = λ x y. x * y;
  per_minutes = λ x n. x * n;
  exp_slowed = λ d. 1;
  days_to = λ s t. t - s;
}

abbrev pub key : ScoreKey
key = record { activity = "a"; application = "kate"; resource = "/notes" }

abbrev row : ResourceEvent
row = record {
  used_activity = "a";
  initiating_agent = "kate";
  targetted_resource = "/notes";
  start = 50;
  finish = some 60;
}

no_rows : select (is_cache_of {R = ℕ} key) [] ≡ []
unfolding select
no_rows = refl

small : 100 < 4294967296
small = omega arith

begun : HaveBegun 100 (row ∷ [])
begun = (omega arith, tt)

first_update_zero_example : update whole 100 key (row ∷ []) [] ≡ (
  [] ++ new_cache whole key 100 ∷ [],
  record { key = key; score = 0; last_update = 100; first_update = 100 },
)
first_update_zero_example = first_update_zero whole 100 key (row ∷ []) [] no_rows small begun

abbrev tree : ResourceTree
tree = ("b", ("kate", "/x" ∷ []) ∷ []) ∷ ("a", ("kate", "/notes" ∷ []) ∷ []) ∷ []

tree_has_key : contains (resources_of tree "a" "kate") "/notes" ≡ true
unfolding lookup contains
tree_has_key = refl

scheduled_updated_example :
    (contains (process_resources "b" tree).0 key ≡ true) × ((process_resources "b" tree).1 ≡ [])
scheduled_updated_example = scheduled_updated "b" tree key tree_has_key

abbrev pub stats : List String → Stats
stats otr = record {
  blocked_by_default = false;
  block_all = false;
  what_to_remember = all_applications;
  apps = [];
  url_filters = [];
  otr_activities = otr;
  events = [];
  infos = [];
  scheduled = [];
}

abbrev pub seen : ℕ → Event
seen kind = record { application = "kate"; wid = 7; uri = "/notes"; kind = kind; timestamp = 5000 }

seen_accepted : accepted_event world (stats []) (validate_event world (seen closed)) ≡ true
unfolding accepted_event validate_event contains any
seen_accepted = refl

closed_leaves_none_open_example :
    has_open "a"
      (validate_event world (seen closed))
      (add_events world (seen opened ∷ [] ++ seen closed ∷ []) (stats []))
    ≡ false
closed_leaves_none_open_example =
    closed_leaves_none_open world (seen opened ∷ []) (seen closed) (stats []) refl refl
      seen_accepted

abbrev clock : Clock
clock = record { now = 100; days_before = λ d. 100 - d; months_before = λ m. 100 - m }

abbrev history : History ℕ
history = record { events = record row { finish = none } ∷ row ∷ []; caches = []; deleted = [] }

delete_recent_stats_keeps_open_example :
    select is_open (delete_recent_stats clock "a" 1 "h" history).events
    ≡ select is_open history.events
delete_recent_stats_keeps_open_example = delete_recent_stats_keeps_open clock "a" 1 "h" history refl
