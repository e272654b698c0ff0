-- ===== src/Plugins/Templates.antt =====
-- TemplatesPlugin (src/service/plugins/activitytemplates). Values are of any type `V`, which stands
-- for QVariant; its conversions are arguments: `to_string` is QVariant::toString, and `entry_text` is
-- the text that KConfigGroup::writeEntry stores for a value. The configuration holds texts.
use kactivitymanagerd.Prelude.{
  ◌||◌, String, Bool, true, false, Option, none, some, List, [], ◌∷◌, ◌≡◌, refl, ap, ◌∙◌, arith,
  ◌==◌, string_eq, ==_iff, ==_refl, ==_comm, Hash, lookup, insert, remove, keys, has_key,
  or_default, Distinct, contains-keys, remove-Distinct, lookup-insert, lookup-remove, if◌then◌else◌,
}
use kactivitymanagerd.Activities.Data.{Activities, What, name, description, icon, read_entry}
use kactivitymanagerd.Activities.Listing.{Collation}
use kactivitymanagerd.Activities.Operations.{authorized_add, set_attribute, schedule_config_sync}

-- the group of the configuration of the plugin, with a group for each activity
abbrev pub Templates : Type 0
Templates = Hash String (Hash String String)

-- what featureValue returns: a text or the list of the keys
pub data Answer : Type 0 where
  text : String → Answer
  key_list : List String → Answer

abbrev pub activity_config : String → Templates → Hash String String
activity_config id t = or_default (lookup id t) []

-- TemplatesPlugin::featureValue; readEntry, with QVariant(QString()) as its default, gives the text of
-- the entry
unfoldable pub feature_value : List String → Templates → Answer
feature_value [] t = text ""
feature_value (id ∷ key ∷ []) t = text (or_default (lookup key (activity_config id t)) "")
feature_value (id ∷ rest) t = key_list (keys (activity_config id t))

-- the keys that createActivity takes out of the hash
abbrev pub is_taken : String → Bool
is_taken key = key == "activity.name" || key == "activity.description" || key == "activity.icon"

module _ {V : Type 0} where
  -- the text of takeStringValue; an invalid QVariant has the empty text
  abbrev pub string_value : (V → String) → String → Hash String V → String
  string_value to_string key values = elim (lookup key values) [ none ↦ "" | some v ↦ to_string v ]

  -- for_each_assoc with writeEntry
  unfoldable pub write_entries :
      (V → String) → Hash String V → Hash String String → Hash String String
  write_entries entry_text [] config = config
  write_entries entry_text ((key, value) ∷ values) config =
      write_entries entry_text values (insert key (entry_text value) config)

  -- what the three calls of takeStringValue leave
  abbrev pub remaining : Hash String V → Hash String V
  remaining values =
      remove "activity.icon" (remove "activity.description" (remove "activity.name" values))

  -- createActivity, from the answer of AddActivity on
  unfoldable pub set_up :
      (V → String)
      → (V → String)
      → Hash String V
      → String
      → Templates
      → Activities
      → Templates × Activities
  set_up to_string entry_text values id t s = (
    insert id (write_entries entry_text (remaining values) (activity_config id t)) t,
    set_attribute icon id (string_value to_string "activity.icon" values)
        (set_attribute description id (string_value to_string "activity.description" values) s),
  )

  unfoldable pub after_add :
      (V → String)
      → (V → String)
      → Hash String V
      → Templates
      → Option (Activities × String)
      → Option (Templates × Activities)
  after_add to_string entry_text values t none = none
  after_add to_string entry_text values t (some (s, id)) =
      some (set_up to_string entry_text values id t s)

  -- TemplatesPlugin::createActivity, with the answer of KAuthorized and the uuids for AddActivity
  unfoldable pub create_activity :
      Collation
      → (V → String)
      → (V → String)
      → Bool
      → List String
      → Hash String V
      → Templates
      → Activities
      → Option (Templates × Activities)
  create_activity c to_string entry_text authorized uuids values t s =
      after_add to_string entry_text values t
        (authorized_add c authorized uuids (string_value to_string "activity.name" values) s)

  -- the hash of setFeatureValue
  abbrev pub test_info : (String → V) → (List String → V) → String → Hash String V
  test_info from_string from_list title =
      ("activity.name", from_string title)
      ∷ ("activity.description", from_string "Nothing special")
      ∷ ("activity.wallpaper", from_string "stripes.png")
      ∷ ("activity.icon", from_string "kate")
      ∷ ("activity.cloneFrom", from_string "id")
      ∷ ("activity.linkedResources", from_list ("a" ∷ "b" ∷ "c" ∷ []))
      ∷ []

  -- TemplatesPlugin::setFeatureValue
  unfoldable pub set_feature_value :
      Collation
      → (V → String)
      → (V → String)
      → (String → V)
      → (List String → V)
      → Bool
      → List String
      → List String
      → V
      → Templates
      → Activities
      → Option (Templates × Activities)
  set_feature_value c to_string entry_text from_string from_list authorized uuids (what ∷ []) value
        t s =
      if what == "createActivity"
      then create_activity c to_string entry_text authorized uuids
          (test_info from_string from_list (to_string value)) t s
      else some (t, s)
  set_feature_value c to_string entry_text from_string from_list authorized uuids property value t
        s =
      some (t, s)

  lookup-write_entries :
      (entry_text : V → String) (k : String) (values : Hash String V) (config : Hash String String)
      → Distinct (keys values)
      → lookup k (write_entries entry_text values config)
        ≡ elim (lookup k values) [ none ↦ lookup k config | some w ↦ some (entry_text w) ]
  unfolding write_entries lookup
  lookup-write_entries entry_text k [] config d = refl
  lookup-write_entries entry_text k ((j, w) ∷ values) config d = ground (
    arith,
    lookup-write_entries entry_text k values (insert j (entry_text w) config) d.1,
    lookup-insert j k (entry_text w) config,
    contains-keys j values,
    ==_iff j k,
    d.0,
  )

  lookup-remaining :
      (k : String) (values : Hash String V)
      → is_taken k ≡ false
      → lookup k (remaining values) ≡ lookup k values
  lookup-remaining k values h =
      let named = remove "activity.name" values in
      ground (
        arith,
        lookup-remove "activity.icon" k (remove "activity.description" named),
        lookup-remove "activity.description" k named,
        lookup-remove "activity.name" k values,
        ==_comm k "activity.icon",
        ==_comm k "activity.description",
        ==_comm k "activity.name",
      )

  remaining-Distinct :
      (values : Hash String V) → Distinct (keys values) → Distinct (keys (remaining values))
  remaining-Distinct values d =
      remove-Distinct "activity.icon"
        (remove "activity.description" (remove "activity.name" values))
        (remove-Distinct "activity.description" (remove "activity.name" values)
          (remove-Distinct "activity.name" values d))

activities-set_attribute :
    (w : What) (a v : String) (s : Activities) → (set_attribute w a v s).activities ≡ s.activities
unfolding set_attribute schedule_config_sync
activities-set_attribute w a v s = ground arith

read_entry-set_attribute :
    (w : What) (a v : String) (s : Activities)
    → has_key s.activities a ≡ true
    → read_entry w a (set_attribute w a v s) ≡ v
unfolding read_entry set_attribute schedule_config_sync
read_entry-set_attribute name a v s h = ground (
  arith,
  h,
  lookup-insert a a v s.config.names,
  ==_refl a,
  ==_iff v (or_default (lookup a s.config.names) ""),
)
read_entry-set_attribute description a v s h = ground (
  arith,
  h,
  lookup-insert a a v s.config.descriptions,
  ==_refl a,
  ==_iff v (or_default (lookup a s.config.descriptions) ""),
)
read_entry-set_attribute icon a v s h = ground (
  arith,
  h,
  lookup-insert a a v s.config.icons,
  ==_refl a,
  ==_iff v (or_default (lookup a s.config.icons) ""),
)

icon_keeps_description :
    (a v : String) (s : Activities)
    → read_entry description a (set_attribute icon a v s) ≡ read_entry description a s
unfolding read_entry set_attribute schedule_config_sync
icon_keeps_description a v s = ground arith

module _ {V : Type 0} (c : Collation) (to_string entry_text : V → String) (authorized : Bool)
    (uuids : List String) where
  -- For a hash that has each key once: when AddActivity, called with the text of "activity.name",
  -- has added an activity, createActivity has given it the texts of "activity.description" and
  -- "activity.icon" for its description and icon, keeps the states of the activities, and
  -- featureValue gives for the id and any other key of the hash the text that writeEntry stores
  -- for the value of this key, whatever the type of the value.
  pub create_activity_lem :
      (values : Hash String V) (t : Templates) (s s' : Activities) (id : String)
      → Distinct (keys values)
      → authorized_add c authorized uuids (string_value to_string "activity.name" values) s
        ≡ some (s', id)
      → has_key s'.activities id ≡ true
      → let made = set_up to_string entry_text values id t s' in
        (create_activity c to_string entry_text authorized uuids values t s ≡ some made)
        × (read_entry description id made.1 ≡ string_value to_string "activity.description" values)
        × (read_entry icon id made.1 ≡ string_value to_string "activity.icon" values)
        × (made.1.activities ≡ s'.activities)
        × ((key : String) (v : V)
            → is_taken key ≡ false
            → lookup key values ≡ some v
            → feature_value (id ∷ key ∷ []) made.0 ≡ text (entry_text v))
  unfolding create_activity after_add set_up feature_value
  create_activity_lem values t s s' id d added known =
      let told = string_value to_string "activity.description" values in
      let described = set_attribute description id told s' in
      let same = activities-set_attribute description id told s' in
      let icon_text = string_value to_string "activity.icon" values in
      (
        rw added refl,
        icon_keeps_description id icon_text described
            ∙ read_entry-set_attribute description id told s' known,
        read_entry-set_attribute icon id icon_text described (ap (λ m. has_key m id) same ∙ known),
        activities-set_attribute icon id icon_text described ∙ same,
        λ key v other given.
            let written =
              lookup-write_entries entry_text key (remaining values) (activity_config id t)
                (remaining-Distinct values d) in
            rw
              (
                lookup-insert id id
                    (write_entries entry_text (remaining values) (activity_config id t)) t,
                ==_refl id,
                written,
                lookup-remaining key values other,
                given,
              )
              refl,
      )
