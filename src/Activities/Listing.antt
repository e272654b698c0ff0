-- ===== src/Activities/Listing.antt =====
-- The list that clients see: updateSortedActivityList and the methods that read the list.
-- QString's case-insensitive comparison and `operator<` belong to Qt: `Collation` has the two.
use Prim.Native.Nat.{Ordering}
use kactivitymanagerd.Prelude.{
  ℕ, String, Bool, true, false, List, [], ◌∷◌, map, nat_eq, string_eq, nat_beq, has_key, keys,
  if◌then◌else◌,
}
use kactivitymanagerd.Activities.Data.{
  code, ActivityInfo, What, name, description, icon, Activities, read_entry, activity_state,
}

-- QString::compare(…, Qt::CaseInsensitive) and QString::operator<
pub record Collation : Type 0 where
  pub compare_insensitive : String → String → Ordering
  pub less : String → String → Bool

-- Activities::ActivityName, ActivityDescription and ActivityIcon
unfoldable pub attribute : What → String → Activities → String
unfolding read_entry
attribute what a s = if has_key s.activities a then read_entry what a s else ""

-- Activities::ActivityInformation
unfoldable pub activity_information : Activities → String → ActivityInfo
activity_information s a = record {
  id = a;
  name = attribute name a s;
  description = attribute description a s;
  icon = attribute icon a s;
  state = activity_state a s;
}

module _ (c : Collation) where
  -- nameBasedOrdering
  unfoldable pub name_based_ordering : ActivityInfo → ActivityInfo → Bool
  name_based_ordering info other = elim (c.compare_insensitive info.name other.name) [
    | Ordering.lt ↦ true
    | Ordering.eq ↦ c.less info.id other.id
    | Ordering.gt ↦ false
  ]

  unfoldable pub insert_sorted : ActivityInfo → List ActivityInfo → List ActivityInfo
  insert_sorted x [] = x ∷ []
  insert_sorted x (y ∷ ys) = if name_based_ordering y x then y ∷ insert_sorted x ys else x ∷ y ∷ ys

  -- std::sort
  unfoldable pub sort : List ActivityInfo → List ActivityInfo
  sort [] = []
  sort (x ∷ xs) = insert_sorted x (sort xs)

  -- Activities::Private::updateSortedActivityList
  unfoldable pub update_sorted_activity_list : Activities → Activities
  update_sorted_activity_list s = record s {
    sorted_activities = sort (map (activity_information s) (keys s.activities));
  }

-- Activities::ListActivities()
unfoldable pub list_activities : Activities → List String
list_activities s = map (λ info. info.id) s.sorted_activities

unfoldable pub ids_with : ℕ → List ActivityInfo → List String
ids_with st [] = []
ids_with st (info ∷ rest) =
    if nat_beq (code info.state) st then info.id ∷ ids_with st rest else ids_with st rest

-- Activities::ListActivities(int)
abbrev pub list_activities_in : ℕ → Activities → List String
list_activities_in st s = ids_with st s.sorted_activities

-- Activities::ListActivitiesWithInformation
unfoldable pub list_activities_with_information : Activities → List ActivityInfo
unfolding list_activities
list_activities_with_information s = map (activity_information s) (list_activities s)
