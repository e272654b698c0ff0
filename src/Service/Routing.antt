-- ===== src/Service/Routing.antt =====
-- A feature that is set through Features and read through Features: "isOTR" of StatsPlugin.
use kactivitymanagerd.Prelude.{
  String, Bool, true, false, some, List, [], ◌∷◌, ◌≡◌, refl, ap, ◌∙◌, ◌==◌, string_eq, Hash, lookup,
  if◌then◌else◌,
}
use kactivitymanagerd.Service.Keys.{
  split, has_slash, with_slash, split-with_slash, split-plain, with_slash-ne,
}
use kactivitymanagerd.Service.Modules.{Module, pass_to_module, pass_found, get_value, set_value}
use kactivitymanagerd.Stats.Private
use kactivitymanagerd.Stats.Private.{OffRecord, feature_activity, set-feature_value}

some-if : (c x y : Bool) → some (if c then x else y) ≡ (if c then some x else some y)
some-if true x y = refl
some-if false x y = refl

-- StatsPlugin as a module, with the answers of CurrentActivity and ListActivities
abbrev pub stats_module : String → List String → Module OffRecord Bool
stats_module current activities = record {
  is_feature_operational = λ s feature. Private.is_feature_operational activities feature;
  list_features = λ s feature. Private.list_features activities feature;
  feature_value = λ s property. some (Private.feature_value current property s);
  set_feature_value = λ s property value. Private.set_feature_value current property value s;
}

-- the key of "isOTR" for an activity
abbrev pub otr_key : String → String → String
otr_key name activity = with_slash name (with_slash "isOTR" activity)

split-otr_key :
    (name activity : String)
    → has_slash name ≡ false
    → has_slash activity ≡ false
    → split (otr_key name activity) ≡ (name, "isOTR" ∷ activity ∷ [])
unfolding has_slash
split-otr_key name activity h k =
    rw
      (
        split-with_slash name (with_slash "isOTR" activity) h,
        split-with_slash "isOTR" activity refl,
        split-plain activity k,
      )
      refl

module _ (modules : Hash String (Module OffRecord Bool)) (name current : String)
    (activities : List String) where
  get_value-otr_key :
      (a : String) (s : OffRecord)
      → lookup name modules ≡ some (stats_module current activities)
      → has_slash name ≡ false
      → has_slash a ≡ false
      → get_value modules s (otr_key name a)
        ≡ some (Private.feature_value current ("isOTR" ∷ a ∷ []) s)
  unfolding get_value pass_to_module pass_found
  get_value-otr_key a s here h k =
      rw (with_slash-ne name (with_slash "isOTR" a), split-otr_key name a h k, here) refl

  set_value-otr_key :
      (a : String) (v : Bool) (s : OffRecord)
      → lookup name modules ≡ some (stats_module current activities)
      → has_slash name ≡ false
      → has_slash a ≡ false
      → set_value modules (otr_key name a) v s
        ≡ Private.set_feature_value current ("isOTR" ∷ a ∷ []) v s
  unfolding set_value pass_to_module pass_found
  set_value-otr_key a v s here h k =
      rw (with_slash-ne name (with_slash "isOTR" a), split-otr_key name a h k, here) refl

  -- While StatsPlugin is registered under a name without slashes, SetValue on the key
  -- "name/isOTR/a" followed by GetValue on "name/isOTR/b" gives the value that was set when `a` and
  -- `b` stand for the same activity ("activity" and "current" stand for the current one), and else
  -- what GetValue gave before.
  pub set-get_value :
      (a b : String) (v : Bool) (s : OffRecord)
      → lookup name modules ≡ some (stats_module current activities)
      → has_slash name ≡ false
      → has_slash a ≡ false
      → has_slash b ≡ false
      → get_value modules (set_value modules (otr_key name a) v s) (otr_key name b) ≡ (
          if feature_activity current b == feature_activity current a
          then some v
          else get_value modules s (otr_key name b))
  set-get_value a b v s here h k l =
      rw
        (
          set_value-otr_key a v s here h k,
          get_value-otr_key b (Private.set_feature_value current ("isOTR" ∷ a ∷ []) v s) here h l,
          get_value-otr_key b s here h l,
        )
        (ap some (set-feature_value current a b v s).0
          ∙ some-if (feature_activity current b == feature_activity current a) _ _)
