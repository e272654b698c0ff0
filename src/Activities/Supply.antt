-- ===== src/Activities/Supply.antt =====
-- The loop of addActivity (src/service/Activities.cpp) that looks for a new uuid ends, given enough
-- different uuids.
use kactivitymanagerd.Prelude.{
  ◌≤◌, ◌<◌, String, true, false, some, List, [], ◌∷◌, ◌≡◌, refl, sym, ◌∙◌, arith, ◌==◌, string_eq,
  Hash, lookup, remove, has_key, contains, Distinct, length, lookup-remove, ==_iff, ==_refl,
  Bool-cases, inl, inr,
}
use kactivitymanagerd.Activities.Data.{State, running, Activities}
use kactivitymanagerd.Activities.Listing.{Collation}
use kactivitymanagerd.Activities.Operations.{fresh_uuid, add_activity, add_with_id}
use kactivitymanagerd.Activities.Calls.{fresh_uuid-new}
use kactivitymanagerd.Activities.Adding.{add_with_id_lem}

length-remove-le : (u : String) (m : Hash String State) → length (remove u m) ≤ length m
unfolding remove
length-remove-le u [] = ground arith
length-remove-le u ((j, w) ∷ m) = ground (arith, length-remove-le u m)

length-remove :
    (u : String) (m : Hash String State) → has_key m u ≡ true → length (remove u m) < length m
unfolding remove lookup
length-remove u [] h = cc
length-remove u ((j, w) ∷ m) h = ground (arith, length-remove u m, length-remove-le u m)

-- removing a key that is not among the uuids changes nothing for the loop
fresh_uuid-remove :
    (us : List String) (u : String) (m : Hash String State)
    → contains us u ≡ false
    → fresh_uuid us (remove u m) ≡ fresh_uuid us m
unfolding fresh_uuid contains
fresh_uuid-remove [] u m h = refl
fresh_uuid-remove (v ∷ us) u m h =
    ground (arith, fresh_uuid-remove us u m, lookup-remove u v m, ==_iff u v, ==_iff v u)

fresh_uuid-found :
    (us : List String) (m : Hash String State)
    → Distinct us
    → contains us "" ≡ false
    → length m < length us
    → (u : String) × (fresh_uuid us m ≡ some u)
unfolding fresh_uuid contains
fresh_uuid-found [] m d b h = ground arith
fresh_uuid-found (u ∷ us) m d b h = elim (Bool-cases (has_key m u)) [
  | inr new ↦ (u, ground (arith, new))
  | inl taken ↦
      let later =
        fresh_uuid-found us (remove u m) d.1 (ground (arith, b))
          (ground (arith, length-remove u m taken)) in
      (later.0, ground (arith, taken, sym (fresh_uuid-remove us u m d.0) ∙ later.1))
]

-- AddActivity ends as soon as more different uuids come than there are activities, the empty one not
-- among them: for a name that is not empty it gives a new id, which is running then.
pub add_activity-returns :
    (c : Collation) (us : List String) (n : String) (s : Activities)
    → Distinct us
    → contains us "" ≡ false
    → length s.activities < length us
    → (n == "") ≡ false
    → (t : Activities) × (id : String) × (add_activity c us n s ≡ some (t, id))
      × (has_key s.activities id ≡ false)
      × (lookup id t.activities ≡ some running)
unfolding add_activity
add_activity-returns c us n s d b h named =
    let u = fresh_uuid-found us s.activities d b h in
    let new = fresh_uuid-new us s.activities u.0 u.1 in
    (
      add_with_id c u.0 n s,
      u.0,
      rw (named, u.1) refl,
      new.1,
      (add_with_id_lem c u.0 n s new.0 u.0).0 ∙ ground (arith, ==_refl u.0),
    )
