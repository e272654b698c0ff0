-- ===== src/Stats/Configuration.antt =====
-- StatsPlugin::loadConfiguration (src/service/plugins/sqlite/StatsPlugin.cpp).
use kactivitymanagerd.Prelude.{
  ℕ, ◌%◌, ◌^◌, String, Bool, true, false, not, ◌&&◌, ◌||◌, Option, some, List, [], ◌∷◌, ◌≡◌, refl,
  arith, ◌==◌, string_eq, nat_eq, ==_refl, any, map, contains, or_default, if◌then◌else◌,
}
use kactivitymanagerd.Event.{Event}
use kactivitymanagerd.Stats.Tables.{World}
use kactivitymanagerd.Stats.Patterns.{parse_star_pattern}
use kactivitymanagerd.Stats.Events.{
  WhatToRemember, all_applications, specific_applications, no_applications, is_specific, Stats,
  accepted_event, add_events,
}
use kactivitymanagerd.Stats.Deletion.{Clock, History, delete_earlier_stats}
use kactivitymanagerd.Stats.Private.{OffRecord, set_otr, set_feature_value, contains-set_otr}
use kactivitymanagerd.Stats.Recording.{off_record_silent}

-- the entries that loadConfiguration reads in the group of the plugin; the two numbers are not
-- negative here
pub record StatsConfig : Type 0 where
  pub blocked_by_default : Option Bool
  pub what_to_remember : Option ℕ
  pub allowed_applications : Option (List String)
  pub blocked_applications : Option (List String)
  pub keep_history_for : Option ℕ
  pub url_filters : Option (List (List ℕ))
  pub off_the_record : Option (List String)

-- m_whatToRemember, a field of two bits; the code treats the number 3 like AllApplications
unfoldable pub to_what : ℕ → WhatToRemember
to_what n =
    let bits = n % 2 ^ 2 in
    if bits == 1
    then specific_applications
    else if bits == 2
    then no_applications
    else all_applications

-- m_apps
unfoldable pub load_apps : StatsConfig → WhatToRemember → Bool → List String
load_apps c what by_default =
    if not (is_specific what)
    then []
    else if by_default
    then or_default c.allowed_applications []
    else or_default c.blocked_applications []

-- "about:*", "*/.*", "/" and "/tmp/*"
abbrev pub default_filters : List (List ℕ)
default_filters =
    (97 ∷ 98 ∷ 111 ∷ 117 ∷ 116 ∷ 58 ∷ 42 ∷ [])
    ∷ (42 ∷ 47 ∷ 46 ∷ 42 ∷ [])
    ∷ (47 ∷ [])
    ∷ (47 ∷ 116 ∷ 109 ∷ 112 ∷ 47 ∷ 42 ∷ [])
    ∷ []

-- starPatternToRegex, as the text for QRegExp; `escape` is QRegExp::escape
unfoldable pub star_pattern_to_regex : (List ℕ → List ℕ) → List ℕ → List ℕ
star_pattern_to_regex escape = parse_star_pattern escape (46 ∷ 42 ∷ [])

-- the members that loadConfiguration sets
unfoldable pub load_members : (List ℕ → List ℕ) → StatsConfig → Stats → Stats
load_members escape c s =
    let by_default = or_default c.blocked_by_default false in
    let what = to_what (or_default c.what_to_remember 0) in
    record s {
      blocked_by_default = by_default;
      block_all = false;
      what_to_remember = what;
      apps = load_apps c what by_default;
      url_filters = map (star_pattern_to_regex escape) (or_default c.url_filters default_filters);
      otr_activities = or_default c.off_the_record [];
    }

-- StatsPlugin::deleteOldEvents
unfoldable pub delete_old_events : {R : Type 0} → Clock → StatsConfig → History R → History R
delete_old_events clock c h = delete_earlier_stats clock "" (or_default c.keep_history_for 0) h

-- StatsPlugin::loadConfiguration
unfoldable pub load_configuration :
    {R : Type 0} → (List ℕ → List ℕ) → Clock → StatsConfig → Stats → History R → Stats × History R
load_configuration escape clock c s h = (load_members escape c s, delete_old_events clock c h)

-- whether the configuration keeps the events of an application out
abbrev pub is_blocked : StatsConfig → String → Bool
is_blocked c application =
    or_default c.what_to_remember 0 % 2 ^ 2 == 1
    && (if or_default c.blocked_by_default false
        then not (contains (or_default c.allowed_applications []) application)
        else contains (or_default c.blocked_applications []) application)

refused-to_what :
    (c : StatsConfig) (n : ℕ) (b : Bool) (a : String)
    → (is_specific (to_what n)
        && (if b
            then not (contains (load_apps c (to_what n) b) a)
            else contains (load_apps c (to_what n) b) a))
      ≡ (n % 2 ^ 2 == 1
          && (if b
              then not (contains (or_default c.allowed_applications []) a)
              else contains (or_default c.blocked_applications []) a))
unfolding to_what load_apps
refused-to_what c n b a = ground arith

-- Whatever the plugin was set to before, once it has loaded a configuration it accepts exactly the
-- events that have an address which no filter of the configuration (the default ones if it has none)
-- matches, in a current activity that is not off the record, of an application that is not blocked:
-- only when the last two bits of "what-to-remember" are 1 are any blocked, and then those on the list of the blocked ones or,
-- with "blocked-by-default", those not on the list of the allowed ones.
pub load_configuration-accepted :
    {R : Type 0} (escape : List ℕ → List ℕ) (clock : Clock) (w : World) (c : StatsConfig)
    (s : Stats) (h : History R) (e : Event)
    → accepted_event w (load_configuration escape clock c s h).0 e
      ≡ not (
          e.uri == ""
          || contains (or_default c.off_the_record []) w.current_activity
          || any
              (λ f. w.is_filtered f e.uri)
              (map (star_pattern_to_regex escape) (or_default c.url_filters default_filters))
          || is_blocked c e.application)
unfolding accepted_event load_configuration load_members
load_configuration-accepted escape clock w c s h e =
    rw
      (refused-to_what c (or_default c.what_to_remember 0) (or_default c.blocked_by_default false)
        e.application)
      refl

-- Once setFeatureValue has put the current activity off the record, a plugin that loads the saved
-- configuration, in any state, has the list that setFeatureValue left: it has the current activity,
-- the others as before, and addEvents changes nothing while this activity is current.
pub load_configuration-set_feature_value :
    {R : Type 0} (escape : List ℕ → List ℕ) (clock : Clock) (w : World) (c : StatsConfig)
    (s : Stats) (h : History R) (o : OffRecord) (es : List Event) (b : String)
    → let saved = (set_feature_value w.current_activity ("isOTR" ∷ "current" ∷ []) true o).saved in
      let loaded =
        (load_configuration escape clock (record c { off_the_record = some saved }) s h).0 in
      (contains loaded.otr_activities b ≡ (b == w.current_activity || contains o.otr_activities b))
      × (add_events w es loaded ≡ loaded)
unfolding load_configuration load_members set_feature_value
load_configuration-set_feature_value escape clock w c s h o es b =
    let current = w.current_activity in
    let loaded =
      load_members escape
        (record c { off_the_record = some (set_otr current true o.otr_activities) }) s in
    (
      ground (arith, contains-set_otr current b true o.otr_activities),
      off_record_silent w es loaded
          (ground (arith, contains-set_otr current current true o.otr_activities, ==_refl current)),
    )
