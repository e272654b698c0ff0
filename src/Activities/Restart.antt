-- ===== src/Activities/Restart.antt =====
-- What the constructor of Activities::Private makes of the configuration.
use kactivitymanagerd.Prelude.{
  ◌≤◌, String, true, false, none, some, List, [], ◌∷◌, ◌≡◌, refl, sym, ◌∙◌, arith, ◌==◌, string_eq,
  nat_eq, Hash, lookup, insert, keys, has_key, contains, is_empty, if◌then◌else◌, lookup-insert,
  ==_iff, Bool-cases, inl, inr, contains-keys,
}
use kactivitymanagerd.Activities.Data.{
  State, running, state_eq, Config, Activities, add_activity, post, keys_with,
}
use kactivitymanagerd.Activities.Startup.{
  start, start_state, load_states, any_running, all_running, post_defaults,
}
use kactivitymanagerd.Activities.Running.{count_in}

lookup-load_states :
    (c : Config) (a : String) (xs : List String) (m : Hash String State)
    → lookup a (load_states c xs m) ≡ (if contains xs a then some (start_state c a) else lookup a m)
unfolding load_states contains
lookup-load_states c a [] m = refl
lookup-load_states c a (x ∷ xs) m = ground (
  arith,
  lookup-load_states c a xs (insert x (start_state c x) m),
  lookup-insert x a (start_state c x) m,
  ==_iff x a,
)

lookup-all_running :
    (a : String) (xs : List String) (m : Hash String State)
    → lookup a (all_running xs m) ≡ (if contains xs a then some running else lookup a m)
unfolding all_running contains
lookup-all_running a [] m = refl
lookup-all_running a (x ∷ xs) m =
    ground
      (arith, lookup-all_running a xs (insert x running m), lookup-insert x a running m, ==_iff x a)

activities-post_defaults :
    (ns : List String) (s : Activities) → (post_defaults ns s).activities ≡ s.activities
unfolding post_defaults
activities-post_defaults [] s = refl
activities-post_defaults (n ∷ ns) s = activities-post_defaults ns (post (add_activity n) s)

-- every entry that a lookup finds is counted
pub count_in-lookup :
    (st : State) (a : String) (m : Hash String State) → lookup a m ≡ some st → 1 ≤ count_in st m
unfolding lookup keys_with
count_in-lookup st a [] h = cc
count_in-lookup st a ((b, v) ∷ m) h = ground (arith, count_in-lookup st a m, state_eq.beq_iff v st)

is_empty-lookup : (a : String) (m : Hash String State) → is_empty m ≡ true → lookup a m ≡ none
unfolding lookup
is_empty-lookup a [] h = refl
is_empty-lookup a (x ∷ m) h = cc

-- the state of each activity after the start, before the list is sorted
pub lookup-start :
    (defaults : List String) (c : Config) (a : String)
    → lookup a (start defaults c).activities ≡ (
        if has_key c.names a
        then some (if any_running c (keys c.names) then start_state c a else running)
        else none)
unfolding start lookup
lookup-start defaults c a =
    let read = load_states c (keys c.names) [] in
    let found = lookup-load_states c a (keys c.names) [] in
    let known = contains-keys a c.names in
    elim (Bool-cases (is_empty read)) [
      | inl none_read ↦
          rw (none_read, activities-post_defaults)
            (ground (arith, found, known, is_empty-lookup a read none_read))
      | inr some_read ↦ elim (Bool-cases (any_running c (keys c.names))) [
        | inl one ↦ rw (some_read, one) (ground (arith, found, known))
        | inr idle ↦
            rw (some_read, idle)
              (ground
                (arith, found, known, contains-keys a read, lookup-all_running a (keys read) read))
      ]
    ]

any_running-known :
    (c : Config) (xs : List String)
    → any_running c xs ≡ true
    → (a : String) × (contains xs a ≡ true) × (start_state c a ≡ running)
unfolding any_running contains
any_running-known c [] h = cc
any_running-known c (x ∷ xs) h = elim (Bool-cases (start_state c x == running)) [
  | inl e ↦ (x, ground (arith, ==_iff x x), (state_eq.beq_iff (start_state c x) running).0 e)
  | inr e ↦
      let later = any_running-known c xs (ground (arith, rw e at h)) in
      (later.0, ground (arith, later.1), later.2)
]

first_key : (m : Hash String String) → is_empty m ≡ false → (a : String) × (has_key m a ≡ true)
unfolding lookup
first_key [] h = cc
first_key ((a, v) ∷ m) h = (a, ground (arith, ==_iff a a))

one_runs :
    (defaults : List String) (c : Config) (a : String)
    → has_key c.names a ≡ true
    → (any_running c (keys c.names) ≡ true → start_state c a ≡ running)
    → 1 ≤ count_in running (start defaults c).activities
one_runs defaults c a known runs =
    count_in-lookup running a (start defaults c).activities
      (elim (Bool-cases (any_running c (keys c.names))) [
        | inl e ↦ ground (arith, lookup-start defaults c a, runs e, known, e)
        | inr e ↦ ground (arith, lookup-start defaults c a, known, e)
      ])

-- The service starts with exactly the activities that the configuration names, and when it names
-- any, at least one of them is running, whatever the lists of running and stopped ones say.
pub start_one_running :
    (defaults : List String) (c : Config)
    → ((a : String) → has_key (start defaults c).activities a ≡ has_key c.names a)
      × (is_empty c.names ≡ false → 1 ≤ count_in running (start defaults c).activities)
start_one_running defaults c = (
  λ a. ground (arith, lookup-start defaults c a),
  λ h. elim (Bool-cases (any_running c (keys c.names))) [
    | inl e ↦
        let one = any_running-known c (keys c.names) e in
        one_runs defaults c one.0 (sym (contains-keys one.0 c.names) ∙ one.1) (λ _. one.2)
    | inr e ↦
        let one = first_key c.names h in
        one_runs defaults c one.0 one.1 (λ f. absurd (ground (arith, e, f)))
  ],
)
