-- ===== src/Stats/Maintainer.antt =====
-- ResourceScoreMaintainer (src/service/plugins/sqlite/ResourceScoreMaintainer.cpp).
use kactivitymanagerd.Prelude.{
  String, true, ◌&&◌, ◌||◌, List, [], ◌∷◌, ◌++◌, ◌≡◌, refl, sym, arith, ◌==◌, ==_iff, ==_refl,
  subst, Bool-cases, inl, inr, contains-append, lookup-remove, lookup-insert, string_eq, Hash,
  lookup, insert, remove, has_key, or_default, contains, if◌then◌else◌,
}
use kactivitymanagerd.Stats.Scores.{ScoreKey, key_eq}

-- ResourceScoreMaintainer::Private::Applications and ResourceTree
abbrev pub Applications : Type 0
Applications = Hash String (List String)

abbrev pub ResourceTree : Type 0
ResourceTree = Hash String Applications

-- `tree[activity][application]`
abbrev pub resources_of : ResourceTree → String → String → List String
resources_of tree activity application =
    or_default (lookup application (or_default (lookup activity tree) [])) []

-- ResourceScoreMaintainer::processResource, with the answer of currentActivity
unfoldable pub process_resource : String → String → String → ResourceTree → ResourceTree
process_resource activity resource application tree =
    let applications = or_default (lookup activity tree) [] in
    let resources = or_default (lookup application applications) [] in
    if has_key tree activity && has_key applications application && contains resources resource
    then tree
    else insert activity (insert application (resources ++ resource ∷ []) applications) tree

-- ResourceScoreMaintainer::Private::processActivity: the caches that are updated, in order
unfoldable pub resource_keys : String → String → List String → List ScoreKey
resource_keys activity application [] = []
resource_keys activity application (resource ∷ resources) =
    record { activity = activity; application = application; resource = resource }
    ∷ resource_keys activity application resources

unfoldable pub process_activity : String → Applications → List ScoreKey
process_activity activity [] = []
process_activity activity ((application, resources) ∷ applications) =
    resource_keys activity application resources ++ process_activity activity applications

unfoldable pub process_all : ResourceTree → List ScoreKey
process_all [] = []
process_all ((activity, applications) ∷ tree) =
    process_activity activity applications ++ process_all tree

-- ResourceScoreMaintainer::Private::processResources: the caches that are updated, in order, and the
-- tree that is left
unfoldable pub process_resources : String → ResourceTree → List ScoreKey × ResourceTree
process_resources current resources =
    if has_key resources current
    then (
      process_activity current (or_default (lookup current resources) [])
          ++ process_all (remove current resources),
      [],
    )
    else (process_all resources, [])

contains-resource_keys :
    (k : ScoreKey) (rs : List String)
    → contains rs k.resource ≡ true
    → contains (resource_keys k.activity k.application rs) k ≡ true
unfolding contains resource_keys
contains-resource_keys k [] h = h
contains-resource_keys k (r ∷ rs) h = ground (
  arith,
  ==_iff r k.resource,
  ==_refl k.activity,
  ==_refl k.application,
  contains-resource_keys k rs,
)

contains-process_activity :
    (k : ScoreKey) (applications : Applications)
    → contains (or_default (lookup k.application applications) []) k.resource ≡ true
    → contains (process_activity k.activity applications) k ≡ true
unfolding contains process_activity lookup
contains-process_activity k [] h = h
contains-process_activity k ((p, rs) ∷ applications) h =
    let apart =
      contains-append (resource_keys k.activity p rs) (process_activity k.activity applications)
        k in
    elim (Bool-cases (p == k.application)) [
      | inl e ↦ ground (
        arith,
        apart,
        e,
        h,
        subst (λ q. contains (resource_keys k.activity q rs) k ≡ true)
            (sym ((==_iff p k.application).0 e)) (contains-resource_keys k rs (rw e at h)),
      )
      | inr e ↦ ground (arith, apart, contains-process_activity k applications (rw e at h))
    ]

contains-process_all :
    (k : ScoreKey) (tree : ResourceTree)
    → contains (resources_of tree k.activity k.application) k.resource ≡ true
    → contains (process_all tree) k ≡ true
unfolding contains process_all lookup
contains-process_all k [] h = h
contains-process_all k ((a, applications) ∷ tree) h =
    let apart = contains-append (process_activity a applications) (process_all tree) k in
    elim (Bool-cases (a == k.activity)) [
      | inl e ↦ ground (
        arith,
        apart,
        subst (λ b. contains (process_activity b applications) k ≡ true)
            (sym ((==_iff a k.activity).0 e))
            (contains-process_activity k applications (rw e at h)),
      )
      | inr e ↦ ground (arith, apart, contains-process_all k tree (rw e at h))
    ]

-- Every resource that is scheduled is updated by processResources, whichever activity is the
-- current one, and nothing stays scheduled.
pub scheduled_updated :
    (current : String) (tree : ResourceTree) (k : ScoreKey)
    → contains (resources_of tree k.activity k.application) k.resource ≡ true
    → (contains (process_resources current tree).0 k ≡ true)
      × ((process_resources current tree).1 ≡ [])
unfolding process_resources
scheduled_updated current tree k h =
    let first = process_activity current (or_default (lookup current tree) []) in
    let rest = process_all (remove current tree) in
    elim (Bool-cases (has_key tree current)) [
      | inl e ↦ (
        rw (e, contains-append first rest k)
            (elim (Bool-cases (current == k.activity)) [
              | inl f ↦ ground (
                arith,
                subst (λ b. contains (process_activity b (or_default (lookup b tree) [])) k ≡ true)
                    (sym ((==_iff current k.activity).0 f))
                    (contains-process_activity k (or_default (lookup k.activity tree) []) h),
              )
              | inr f ↦ ground (
                arith,
                contains-process_all k (remove current tree)
                    (rw (lookup-remove current k.activity tree, f) h),
              )
            ]),
        rw e refl,
      )
      | inr e ↦ rw e (contains-process_all k tree h, refl)
    ]

-- After processResource, exactly one more resource can be scheduled: the one of the call, for its
-- application in the current activity.
pub process_resource-scheduled :
    (activity resource application : String) (tree : ResourceTree) (k : ScoreKey)
    → contains
        (resources_of
          (process_resource activity resource application tree)
          k.activity
          k.application)
        k.resource
      ≡ (contains (resources_of tree k.activity k.application) k.resource
          || activity == k.activity && application == k.application && resource == k.resource)
unfolding process_resource contains
process_resource-scheduled a r p tree k =
    let applications = or_default (lookup a tree) [] in
    let resources = or_default (lookup p applications) [] in
    let inserted = insert p (resources ++ r ∷ []) applications in
    ground (
      arith,
      lookup-insert a k.activity inserted tree,
      lookup-insert p k.application (resources ++ r ∷ []) applications,
      contains-append resources (r ∷ []) k.resource,
      ==_iff a k.activity,
      ==_iff p k.application,
      ==_iff r k.resource,
    )
