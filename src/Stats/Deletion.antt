-- ===== src/Stats/Deletion.antt =====
-- The removal of statistics by StatsPlugin (src/service/plugins/sqlite/StatsPlugin.cpp).
use text.Mathlib.Text.{starts_with, find?}
use kactivitymanagerd.Prelude.{
  ℕ, ◌+◌, ◌%◌, ◌^◌, ◌*◌, ◌-◌, ltb, String, Bool, false, not, ◌&&◌, ◌||◌, none, some, is_some, List,
  ◌∷◌, ◌==◌, string_eq, nat_eq, select, if◌then◌else◌,
}
use kactivitymanagerd.Stats.Tables.{ResourceEvent, ResourceScoreCache}
use kactivitymanagerd.Stats.Patterns.{star_pattern_to_like}

-- the signals of the three methods
pub data Deleted : Type 0 where
  recent_stats_deleted : (activity : String) (count : ℕ) (what : String) → Deleted
  earlier_stats_deleted : (activity : String) (months : ℕ) → Deleted
  resource_score_deleted : (activity client : String) (resource : List ℕ) → Deleted

-- the two tables with statistics, and the emitted signals, newest first
pub record History (R : Type 0) : Type 0 where
  pub events : List ResourceEvent
  pub caches : List (ResourceScoreCache R)
  pub deleted : List Deleted

-- QDateTime::currentDateTime in seconds, and the times that addDays and addMonths give for minus a
-- number of 32 bits
pub record Clock : Type 0 where
  pub now : ℕ
  pub days_before : ℕ → ℕ
  pub months_before : ℕ → ℕ

-- `usedActivity = COALESCE(:usedActivity, usedActivity)`, with NULL bound for the empty activity
abbrev pub is_of_activity : String → String → Bool
is_of_activity activity used = activity == "" || used == activity

-- the time `seconds` later, which are an int of 32 bits: from 2 ^ 31 on they are negative
unfoldable pub add_secs : ℕ → ℕ → ℕ
add_secs t seconds = if ltb seconds (2 ^ 31) then t + seconds else t - (2 ^ 32 - seconds)

-- since what time DeleteRecentStats deletes; `count` is the 32 bits of an int, and -count * 60 * 60
-- wraps around. A time before 1970 is 0.
unfoldable pub recent_since : Clock → ℕ → String → ℕ
recent_since c count what =
    if starts_with what "h"
    then add_secs c.now ((2 ^ 32 - count * 60 * 60 % 2 ^ 32) % 2 ^ 32)
    else if starts_with what "d"
    then c.days_before count
    else if starts_with what "m"
    then c.months_before count
    else c.now

-- a comparison with NULL is not true
abbrev pub ends_after : ℕ → ResourceEvent → Bool
ends_after since e = elim e.finish [ none ↦ false | some t ↦ ltb since t ]

abbrev pub has_quote : String → Bool
has_quote s = is_some (find? s "'")

-- the filters of DeleteStatsForResource on one row; `like` is the operator LIKE of SQLite
unfoldable pub is_stats_of :
    (List ℕ → String → Bool) → String → String → String → List ℕ → String → String → String → Bool
is_stats_of like current activity client resource used agent targetted =
    (activity == ":any" || used == (if activity == ":current" then current else activity))
    && (client == ":any" || agent == client)
    && like (star_pattern_to_like resource) targetted

module _ {R : Type 0} where
  -- StatsPlugin::DeleteRecentStats
  unfoldable pub delete_recent_stats : Clock → String → ℕ → String → History R → History R
  delete_recent_stats c activity count what s =
      let since = recent_since c count what in
      if what == "everything"
      then record {
        events = select (λ e. not (is_of_activity activity e.used_activity)) s.events;
        caches = select (λ r. not (is_of_activity activity r.used_activity)) s.caches;
        deleted = recent_stats_deleted activity count what ∷ s.deleted;
      }
      else record {
        events =
            select (λ e. not (is_of_activity activity e.used_activity && ends_after since e))
              s.events;
        caches =
            select (λ r. not (is_of_activity activity r.used_activity && ltb since r.first_update))
              s.caches;
        deleted = recent_stats_deleted activity count what ∷ s.deleted;
      }

  -- StatsPlugin::DeleteEarlierStats
  unfoldable pub delete_earlier_stats : Clock → String → ℕ → History R → History R
  delete_earlier_stats c activity months s =
      let time = c.months_before months in
      if months == 0 then s else record {
        events =
            select (λ e. not (is_of_activity activity e.used_activity && ltb e.start time))
              s.events;
        caches =
            select (λ r. not (is_of_activity activity r.used_activity && ltb r.last_update time))
              s.caches;
        deleted = earlier_stats_deleted activity months ∷ s.deleted;
      }

  -- StatsPlugin::DeleteStatsForResource, with the answer of currentActivity
  unfoldable pub delete_stats_for_resource :
      (List ℕ → String → Bool) → String → String → String → List ℕ → History R → History R
  delete_stats_for_resource like current activity client resource s =
      let matches = is_stats_of like current activity client resource in
      if has_quote activity || has_quote client then s else record {
        events =
            select (λ e. not (matches e.used_activity e.initiating_agent e.targetted_resource))
              s.events;
        caches =
            select (λ r. not (matches r.used_activity r.initiating_agent r.targetted_resource))
              s.caches;
        deleted = resource_score_deleted activity client resource ∷ s.deleted;
      }
