-- ===== src/Activities/Sorting.antt =====
-- `sort` and the ids and states that the sorted list holds.
use Prim.Native.Nat.{Ordering}
use kactivitymanagerd.Prelude.{
  String, true, false, ◌||◌, none, some, List, [], ◌∷◌, map, ◌≡◌, refl, ap, arith, ◌==◌, nat_eq,
  string_eq, Hash, lookup, has_key, keys, if◌then◌else◌, contains, Distinct, ==_iff, contains-keys,
  ◌∙◌, ◌⊎◌, Option-cases, inl, inr,
}
use kactivitymanagerd.Activities.Data.{State, ActivityInfo, Activities, activity_state}
use kactivitymanagerd.Activities.Listing.{
  Collation, name_based_ordering, insert_sorted, sort, activity_information,
  update_sorted_activity_list,
}

-- the map from ids to states that a list shows
abbrev pub states : List ActivityInfo → Hash String State
states [] = []
states (info ∷ rest) = (info.id, info.state) ∷ states rest

abbrev pub ids : List ActivityInfo → List String
ids xs = keys (states xs)

module _ (c : Collation) where
  contains-insert_sorted :
      (a : String) (x : ActivityInfo) (ys : List ActivityInfo)
      → contains (ids (insert_sorted c x ys)) a ≡ (x.id == a || contains (ids ys) a)
  unfolding insert_sorted contains
  contains-insert_sorted a x [] = refl
  contains-insert_sorted a x (y ∷ ys) = ground (arith, contains-insert_sorted a x ys)

  insert_sorted-Distinct :
      (x : ActivityInfo) (ys : List ActivityInfo)
      → contains (ids ys) x.id ≡ false
      → Distinct (ids ys)
      → Distinct (ids (insert_sorted c x ys))
  unfolding insert_sorted contains
  insert_sorted-Distinct x [] h d = (refl, tt)
  insert_sorted-Distinct x (y ∷ ys) h d = ground (
    arith,
    contains-insert_sorted y.id x ys,
    insert_sorted-Distinct x ys,
    ==_iff x.id y.id,
    ==_iff y.id x.id,
  )

  lookup-insert_sorted :
      (a : String) (x : ActivityInfo) (ys : List ActivityInfo)
      → contains (ids ys) x.id ≡ false
      → lookup a (states (insert_sorted c x ys))
        ≡ (if x.id == a then some x.state else lookup a (states ys))
  unfolding insert_sorted contains lookup
  lookup-insert_sorted a x [] h = refl
  lookup-insert_sorted a x (y ∷ ys) h =
      ground (arith, lookup-insert_sorted a x ys, ==_iff x.id a, ==_iff y.id a, ==_iff y.id x.id)

  contains-sort :
      (a : String) (xs : List ActivityInfo) → contains (ids (sort c xs)) a ≡ contains (ids xs) a
  unfolding sort contains
  contains-sort a [] = refl
  contains-sort a (x ∷ xs) = rw (contains-insert_sorted a x (sort c xs), contains-sort a xs)

  sort-Distinct : (xs : List ActivityInfo) → Distinct (ids xs) → Distinct (ids (sort c xs))
  unfolding sort
  sort-Distinct [] d = tt
  sort-Distinct (x ∷ xs) d =
      insert_sorted-Distinct x (sort c xs) (rw (contains-sort x.id xs) d.0) (sort-Distinct xs d.1)

  lookup-sort :
      (a : String) (xs : List ActivityInfo)
      → Distinct (ids xs)
      → lookup a (states (sort c xs)) ≡ lookup a (states xs)
  unfolding sort lookup
  lookup-sort a [] d = refl
  lookup-sort a (x ∷ xs) d =
      rw (
        lookup-insert_sorted a x (sort c xs) (rw (contains-sort x.id xs) d.0),
        lookup-sort a xs d.1,
      )

module _ (s : Activities) where
  ids-infos : (ks : List String) → ids (map (activity_information s) ks) ≡ ks
  unfolding activity_information
  ids-infos [] = refl
  ids-infos (k ∷ ks) = ap (◌∷◌ k) (ids-infos ks)

  lookup-infos :
      (a : String) (ks : List String)
      → lookup a (states (map (activity_information s) ks))
        ≡ (if contains ks a then some (activity_state a s) else none)
  unfolding activity_information lookup contains
  lookup-infos a [] = refl
  lookup-infos a (k ∷ ks) = ground (arith, lookup-infos a ks, ==_iff k a)

  shown_state :
      (a : String)
      → (if has_key s.activities a then some (activity_state a s) else none) ≡ lookup a s.activities
  unfolding activity_state
  shown_state a = elim (Option-cases (lookup a s.activities)) [ inl e ↦ rw e | inr (v, e) ↦ rw e ]

  -- After updateSortedActivityList the list has every activity once, with its state.
  pub states-update_sorted_activity_list :
      (c : Collation)
      → Distinct (keys s.activities)
      → Distinct (ids (update_sorted_activity_list c s).sorted_activities)
        × ((a : String)
            → lookup a (states (update_sorted_activity_list c s).sorted_activities)
              ≡ lookup a s.activities)
  unfolding update_sorted_activity_list
  states-update_sorted_activity_list c d = (
    sort-Distinct c _ (rw ids-infos d),
    λ a.
        lookup-sort c a _ (rw ids-infos d)
        ∙ lookup-infos a (keys s.activities)
        ∙ rw (contains-keys a s.activities) (shown_state a),
  )

-- What Qt says of the two comparisons: comparing the other way round gives the opposite answer,
-- and of two texts at most one is less.
pub record IsCollation (c : Collation) : Type 0 where
  pub opposite_lt :
      (a b : String)
      → c.compare_insensitive a b ≡ Ordering.lt
      → c.compare_insensitive b a ≡ Ordering.gt
  pub opposite_eq :
      (a b : String)
      → c.compare_insensitive a b ≡ Ordering.eq
      → c.compare_insensitive b a ≡ Ordering.eq
  pub opposite_gt :
      (a b : String)
      → c.compare_insensitive a b ≡ Ordering.gt
      → c.compare_insensitive b a ≡ Ordering.lt
  pub less_asym : (a b : String) → c.less a b ≡ true → c.less b a ≡ false

module _ (c : Collation) where
  -- `x` may stand before `y`: its name is the lesser one without regard to case, or the names are the
  -- same in this sense and the id of `y` is not the lesser one
  abbrev pub MayPrecede : ActivityInfo → ActivityInfo → Type 0
  MayPrecede x y =
      (c.compare_insensitive x.name y.name ≡ Ordering.lt)
      ⊎ ((c.compare_insensitive x.name y.name ≡ Ordering.eq) × (c.less y.id x.id ≡ false))

  -- each entry may stand before the next one
  abbrev pub IsSorted : List ActivityInfo → Type 0
  IsSorted [] = Unit {0}
  IsSorted (x ∷ []) = Unit {0}
  IsSorted (x ∷ y ∷ ys) = MayPrecede x y × IsSorted (y ∷ ys)

  -- no entry stands before one that nameBasedOrdering puts first
  abbrev IsInOrder : List ActivityInfo → Type 0
  IsInOrder [] = Unit {0}
  IsInOrder (x ∷ []) = Unit {0}
  IsInOrder (x ∷ y ∷ ys) = (name_based_ordering c y x ≡ false) × IsInOrder (y ∷ ys)

  order_reversed :
      (x y : ActivityInfo)
      → IsCollation c
      → (o : Ordering) → c.compare_insensitive y.name x.name ≡ o
      → name_based_ordering c y x ≡ false
      → MayPrecede x y
  unfolding name_based_ordering
  order_reversed x y law Ordering.lt e h = absurd (ground (arith, e, h))
  order_reversed x y law Ordering.eq e h =
      inr (law.opposite_eq y.name x.name e, ground (arith, e, h))
  order_reversed x y law Ordering.gt e h = inl (law.opposite_gt y.name x.name e)

  in_order-IsSorted : (xs : List ActivityInfo) → IsCollation c → IsInOrder xs → IsSorted xs
  in_order-IsSorted [] law h = tt
  in_order-IsSorted (x ∷ []) law h = tt
  in_order-IsSorted (x ∷ y ∷ ys) law h =
      (order_reversed x y law _ refl h.0, in_order-IsSorted (y ∷ ys) law h.1)

  name_based_ordering_asym :
      (x y : ActivityInfo)
      → IsCollation c
      → name_based_ordering c x y ≡ true
      → name_based_ordering c y x ≡ false
  unfolding name_based_ordering
  name_based_ordering_asym x y law h =
      ground (
        arith,
        law.opposite_lt x.name y.name,
        law.opposite_eq x.name y.name,
        law.less_asym x.id y.id,
      )

  insert_sorted-IsInOrder :
      (x : ActivityInfo) (ys : List ActivityInfo)
      → IsCollation c
      → IsInOrder ys
      → IsInOrder (insert_sorted c x ys)
  unfolding insert_sorted
  insert_sorted-IsInOrder x [] law h = tt
  insert_sorted-IsInOrder x (y ∷ []) law h = ground (arith, name_based_ordering_asym y x law)
  insert_sorted-IsInOrder x (y ∷ z ∷ ys) law h =
      ground (arith, name_based_ordering_asym y x law, insert_sorted-IsInOrder x (z ∷ ys) law h.1)

  sort-IsInOrder : (xs : List ActivityInfo) → IsCollation c → IsInOrder (sort c xs)
  unfolding sort
  sort-IsInOrder [] law = tt
  sort-IsInOrder (x ∷ xs) law = insert_sorted-IsInOrder x (sort c xs) law (sort-IsInOrder xs law)

  -- After updateSortedActivityList each activity stands before one whose name is greater without regard
  -- to case, or the same in this sense with an id that is not less, if Qt's comparisons are
  -- antisymmetric.
  pub update_sorted_activity_list-IsSorted :
      (s : Activities)
      → IsCollation c
      → IsSorted (update_sorted_activity_list c s).sorted_activities
  unfolding update_sorted_activity_list
  update_sorted_activity_list-IsSorted s law =
      in_order-IsSorted (sort c _) law (sort-IsInOrder _ law)
