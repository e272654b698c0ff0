-- ===== src/Tests/Plugins.antt =====
-- The modules and the smaller plugins at fixed inputs.
use kactivitymanagerd.Prelude.{
  inl, ℕ, String, Bool, true, false, none, some, [], ◌∷◌, ◌≡◌, refl, ◌==◌, string_eq, Hash, lookup,
  map, if◌then◌else◌,
}
use kactivitymanagerd.Stats.Private.{OffRecord, feature_activity}
use kactivitymanagerd.Service.Keys.{has_slash}
use kactivitymanagerd.Service.Modules.{Module, get_value, set_value}
use kactivitymanagerd.Service.Routing.{stats_module, otr_key, set-get_value}
use kactivitymanagerd.Service.Loading.{
  PluginMetaData, creates, Loaded, IsLoaded, load_plugins, load_plugins-IsLoaded,
}
use kactivitymanagerd.Plugins.Spies.{handle, new_handler}
use kactivitymanagerd.Plugins.Bookmarks.{Item, elements, bookmark_of, marks-elements}

abbrev recording : OffRecord
recording = record { otr_activities = []; saved = [] }

abbrev loaded : Hash String (Module OffRecord Bool)
loaded = ("stats", stats_module "a" ("a" ∷ "b" ∷ [])) ∷ []

set-get_value_example :
    get_value loaded
      (set_value loaded (otr_key "stats" "current") true recording)
      (otr_key "stats" "a")
    ≡ (if feature_activity "a" "a" == feature_activity "a" "current"
        then some true
        else get_value loaded recording (otr_key "stats" "a"))
unfolding has_slash lookup
set-get_value_example =
    set-get_value loaded "stats" "a" ("a" ∷ "b" ∷ []) "current" "a" true recording refl refl refl
      refl

abbrev scoring : PluginMetaData
scoring = record {
  plugin_id = "org.kde.ActivityManager.ResourceScoring";
  is_valid = true;
  is_enabled_by_default = false;
}

abbrev no_plugins : Loaded ℕ
no_plugins = record { plugin_ids = []; plugins = []; modules = []; deleted = [] }

no_plugins-IsLoaded : IsLoaded [] no_plugins
unfolding lookup
no_plugins-IsLoaded = record { distinct = tt; paired = refl; traced = λ k o e. inl e }

-- the plugin does not start, and is tried twice
load_plugins-IsLoaded_example :
    IsLoaded []
      (load_plugins (λ p. creates 5 "stats" false) (λ p. none) (scoring ∷ scoring ∷ []) no_plugins)
load_plugins-IsLoaded_example =
    load_plugins-IsLoaded (λ p. creates 5 "stats" false) (λ p. none) (scoring ∷ scoring ∷ []) []
      no_plugins no_plugins-IsLoaded

abbrev item : Item
item = record {
  href = "file:///notes";
  added = "2020-01-01";
  modified = "2020-01-02";
  visited = "2020-01-03";
  type = "text/plain";
  uses = ("'gedit %u'", "2020-01-03") ∷ [];
}

marks-elements_example :
    (handle
      (λ t. some t)
      (λ t. 1)
      (λ exec. none)
      (elements (item ∷ item ∷ []))
      (new_handler none)).marks
    ≡ map (bookmark_of (λ t. some t) (λ t. 1) (λ exec. none)) (item ∷ item ∷ [])
marks-elements_example =
    marks-elements (λ t. some t) (λ t. 1) (λ exec. none) (item ∷ item ∷ []) none
