-- ===== src/Stats/Private.antt =====
-- The activities that are off the record: the feature "isOTR" of StatsPlugin
-- (src/service/plugins/sqlite/StatsPlugin.cpp). A key is what stands between its slashes.
use kactivitymanagerd.Prelude.{
  String, Bool, false, not, ◌&&◌, ◌||◌, List, [], ◌∷◌, ◌++◌, ◌≡◌, refl, arith, ◌==◌, string_eq,
  ==_iff, select, contains, contains-append, if◌then◌else◌,
}

-- m_otrActivities, and the entry "off-the-record-activities" of the configuration
pub record OffRecord : Type 0 where
  pub otr_activities : List String
  pub saved : List String

-- the activity that the second part of the key stands for
abbrev pub feature_activity : String → String → String
feature_activity current activity =
    if activity == "activity" || activity == "current" then current else activity

-- StatsPlugin::isFeatureOperational, with the answer of ListActivities
unfoldable pub is_feature_operational : List String → List String → Bool
is_feature_operational activities [] = false
is_feature_operational activities (name ∷ []) = name == "isOTR"
is_feature_operational activities (name ∷ activity ∷ []) =
    name == "isOTR"
    && (activity == "activity" || activity == "current" || contains activities activity)
is_feature_operational activities (name ∷ x ∷ y ∷ rest) = name == "isOTR"

-- StatsPlugin::featureValue, with the answer of CurrentActivity
unfoldable pub feature_value : String → List String → OffRecord → Bool
feature_value current (name ∷ activity ∷ []) s =
    name == "isOTR" && contains s.otr_activities (feature_activity current activity)
feature_value current _ s = false

-- the new list in setFeatureValue: `removeAll` takes every copy
unfoldable pub set_otr : String → Bool → List String → List String
set_otr activity is_otr otr =
    if is_otr && not (contains otr activity)
    then otr ++ activity ∷ []
    else if not is_otr && contains otr activity
    then select (λ a. not (a == activity)) otr
    else otr

-- StatsPlugin::setFeatureValue
unfoldable pub set_feature_value : String → List String → Bool → OffRecord → OffRecord
set_feature_value current (name ∷ activity ∷ []) is_otr s =
    if name == "isOTR"
    then (let otr = set_otr (feature_activity current activity) is_otr s.otr_activities in
        record { otr_activities = otr; saved = otr })
    else s
set_feature_value current _ is_otr s = s

-- StatsPlugin::listFeatures, with the answer of ListActivities
unfoldable pub list_features : List String → List String → List String
list_features activities [] = "isOTR/" ∷ []
list_features activities (name ∷ rest) =
    if name == "" then "isOTR/" ∷ [] else if name == "isOTR" then activities else []

contains-select_other :
    (a b : String) (xs : List String)
    → contains (select (λ x. not (x == a)) xs) b ≡ (contains xs b && not (b == a))
unfolding contains select
contains-select_other a b [] = refl
contains-select_other a b (x ∷ xs) =
    ground (arith, ==_iff x a, ==_iff x b, ==_iff b a, contains-select_other a b xs)

pub contains-set_otr :
    (a b : String) (v : Bool) (xs : List String)
    → contains (set_otr a v xs) b ≡ (if b == a then v else contains xs b)
unfolding set_otr contains
contains-set_otr a b v xs =
    ground
      (arith, ==_iff a b, ==_iff b a, contains-append xs (a ∷ []) b, contains-select_other a b xs)

-- After setFeatureValue on "isOTR" of an activity, featureValue gives the new value for every name
-- of that activity, with "activity" and "current" standing for the current one, and what it gave
-- before for the other activities; the configuration holds the same list as the plugin.
pub set-feature_value :
    (current a b : String) (v : Bool) (s : OffRecord)
    → (feature_value current ("isOTR" ∷ b ∷ []) (set_feature_value current ("isOTR" ∷ a ∷ []) v s)
        ≡ (if feature_activity current b == feature_activity current a
            then v
            else feature_value current ("isOTR" ∷ b ∷ []) s))
      × ((set_feature_value current ("isOTR" ∷ a ∷ []) v s).saved
          ≡ (set_feature_value current ("isOTR" ∷ a ∷ []) v s).otr_activities)
unfolding feature_value set_feature_value
set-feature_value current a b v s = (
  contains-set_otr (feature_activity current a) (feature_activity current b) v s.otr_activities,
  refl,
)
