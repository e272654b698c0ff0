-- ===== src/Tests/Configuration.antt =====
-- The configuration of the sqlite plugin at a fixed input.
use kactivitymanagerd.Prelude.{
  ℕ, true, not, ◌||◌, none, some, [], ◌∷◌, ◌≡◌, ◌==◌, string_eq, any, map, contains, or_default,
}
use kactivitymanagerd.Event.{opened}
use kactivitymanagerd.Stats.Events.{accepted_event, add_events}
use kactivitymanagerd.Stats.Deletion.{Clock, History}
use kactivitymanagerd.Stats.Private.{OffRecord, set_feature_value}
use kactivitymanagerd.Stats.Configuration.{
  StatsConfig, load_configuration, star_pattern_to_regex, default_filters, is_blocked,
  load_configuration-accepted, load_configuration-set_feature_value,
}
use kactivitymanagerd.Tests.Statistics.{world, stats, seen}

-- only kate is allowed
abbrev strict : StatsConfig
strict = record {
  blocked_by_default = some true;
  what_to_remember = some 1;
  allowed_applications = some ("kate" ∷ []);
  blocked_applications = none;
  keep_history_for = some 3;
  url_filters = none;
  off_the_record = some ("b" ∷ []);
}

abbrev clock : Clock
clock = record { now = 9; days_before = λ n. 0; months_before = λ n. 0 }

abbrev no_history : History ℕ
no_history = record { events = []; caches = []; deleted = [] }

load_configuration-accepted_example :
    accepted_event world
      (load_configuration (λ p. p) clock strict (stats ("a" ∷ [])) no_history).0
      (seen opened)
    ≡ not (
        (seen opened).uri == ""
        || contains (or_default strict.off_the_record []) world.current_activity
        || any
            (λ f. world.is_filtered f (seen opened).uri)
            (map (star_pattern_to_regex (λ p. p)) (or_default strict.url_filters default_filters))
        || is_blocked strict (seen opened).application)
load_configuration-accepted_example =
    load_configuration-accepted (λ p. p) clock world strict (stats ("a" ∷ [])) no_history
      (seen opened)

abbrev all_public : OffRecord
all_public = record { otr_activities = "b" ∷ []; saved = [] }

load_configuration-set_feature_value_example :
    let saved =
      (set_feature_value world.current_activity ("isOTR" ∷ "current" ∷ []) true all_public).saved in
    let loaded =
      (load_configuration
        (λ p. p)
        clock
        (record strict { off_the_record = some saved })
        (stats [])
        no_history).0 in
    (contains loaded.otr_activities "b"
      ≡ ("b" == world.current_activity || contains all_public.otr_activities "b"))
    × (add_events world (seen opened ∷ []) loaded ≡ loaded)
load_configuration-set_feature_value_example =
    load_configuration-set_feature_value (λ p. p) clock world strict (stats []) no_history
      all_public (seen opened ∷ []) "b"
