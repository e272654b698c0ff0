-- ===== src/Stats/Scores.antt =====
-- ResourceScoreCache::update (src/service/plugins/sqlite/ResourceScoreCache.cpp). Times are seconds.
use kactivitymanagerd.Prelude.{
  ℕ, ◌+◌, ◌-◌, ◌%◌, ◌<◌, ◌≤◌, ltb, leb, String, Bool, true, false, ◌&&◌, List, [], ◌∷◌, ◌++◌, ◌≡◌,
  refl, arith, ◌==◌, ==_iff, Eq, ◌↔◌, ==_refl, string_eq, nat_eq, select, or_default, Bool-cases,
  inl, inr, if◌then◌else◌,
}
use kactivitymanagerd.Stats.Tables.{ResourceEvent, ResourceScoreCache}

-- ResourceScoreCache::Private
pub record ScoreKey : Type 0 where
  pub activity : String
  pub application : String
  pub resource : String

abbrev pub key_beq : ScoreKey → ScoreKey → Bool
key_beq k l = k.activity == l.activity && k.application == l.application && k.resource == l.resource

pub key_beq_iff : (k l : ScoreKey) → (key_beq k l ≡ true) ↔ (k ≡ l)
key_beq_iff k l =
    let a = ==_iff k.activity l.activity in
    let b = ==_iff k.application l.application in
    let c = ==_iff k.resource l.resource in
    (λ h. ground (arith, a, b, c), λ h. ground (arith, a, b, c))

instance abbrev pub key_eq : Eq ScoreKey
key_eq = record { beq = key_beq; beq_iff = key_beq_iff }

-- The floating-point numbers of the scores: `exp_slowed days` is std::exp(-days / 32.0), `days_to`
-- is QDateTime::daysTo, and `per_minutes x n` is x * n / 60.0.
pub record Scoring (R D : Type 0) : Type 0 where
  pub zero_score : R
  pub add : R → R → R
  pub multiply : R → R → R
  pub per_minutes : R → ℕ → R
  pub exp_slowed : D → R
  pub days_to : ℕ → ℕ → D

-- QVariant::toUInt of an integer
abbrev pub to_uint : ℕ → ℕ
to_uint n = n % 4294967296

-- the difference of two values of type uint
abbrev pub uint_minus : ℕ → ℕ → ℕ
uint_minus a b = (a + (4294967296 - b)) % 4294967296

-- the WHERE clauses on the three columns
abbrev pub is_event_of : ScoreKey → ResourceEvent → Bool
is_event_of k e =
    k.activity == e.used_activity
    && k.application == e.initiating_agent
    && k.resource == e.targetted_resource

-- `ORDER BY start ASC`
unfoldable pub insert_by_start : ResourceEvent → List ResourceEvent → List ResourceEvent
insert_by_start e [] = e ∷ []
insert_by_start e (f ∷ fs) =
    let rest = insert_by_start e fs in if leb e.start f.start then e ∷ f ∷ fs else f ∷ rest

unfoldable pub order_by_start : List ResourceEvent → List ResourceEvent
order_by_start [] = []
order_by_start (e ∷ es) = insert_by_start e (order_by_start es)

-- getScoreAdditionQuery
abbrev pub score_additions : ScoreKey → ℕ → List ResourceEvent → List ResourceEvent
score_additions k start events =
    order_by_start (select (λ e. is_event_of k e && ltb start e.start) events)

-- the arguments of ResourceScoreUpdated
pub record ScoreUpdated (R : Type 0) : Type 0 where
  pub key : ScoreKey
  pub score : R
  pub last_update : ℕ
  pub first_update : ℕ

module _ {R : Type 0} where
  abbrev pub is_cache_of : ScoreKey → ResourceScoreCache R → Bool
  is_cache_of k c =
      k.activity == c.used_activity
      && k.application == c.initiating_agent
      && k.resource == c.targetted_resource

  -- updateResourceScoreCacheQuery
  unfoldable pub set_score :
      ScoreKey → R → ℕ → List (ResourceScoreCache R) → List (ResourceScoreCache R)
  set_score k score last_update [] = []
  set_score k score last_update (c ∷ cs) =
      let rest = set_score k score last_update cs in
      if is_cache_of k c
      then record c { cached_score = score; last_update = last_update } ∷ rest
      else c ∷ rest

module _ {R D : Type 0} where
  -- createResourceScoreCacheQuery
  abbrev pub new_cache : Scoring R D → ScoreKey → ℕ → ResourceScoreCache R
  new_cache sc k now = record {
    used_activity = k.activity;
    initiating_agent = k.application;
    targetted_resource = k.resource;
    cached_score = sc.zero_score;
    first_update = now;
    last_update = now;
  }

  -- ResourceScoreCache::Private::timeFactor
  abbrev pub time_factor : Scoring R D → ℕ → ℕ → R
  time_factor sc from_time to_time = sc.exp_slowed (sc.days_to from_time to_time)

  -- the loop over the events: the score, and lastEventStart. A column `end` that is NULL reads 0.
  unfoldable pub add_intervals : Scoring R D → ℕ → List ResourceEvent → R → ℕ → R × ℕ
  add_intervals sc now [] score last_event_start = (score, last_event_start)
  add_intervals sc now (e ∷ es) score last_event_start =
      let start = to_uint e.start in
      let end_time = to_uint (or_default e.finish 0) in
      let interval_length = uint_minus end_time start in
      let factor = time_factor sc end_time now in
      add_intervals sc now es
        (if interval_length == 0
          then sc.add score factor
          else sc.add score (sc.per_minutes factor interval_length))
        start

  -- the rest of update, after the row of the cache is read
  unfoldable pub update_from :
      Scoring R D
      → ℕ
      → ScoreKey
      → List ResourceEvent
      → List (ResourceScoreCache R)
      → R
      → ℕ
      → ℕ
      → List (ResourceScoreCache R) × ScoreUpdated R
  update_from sc now k events caches score last_update first_update =
      let r = add_intervals sc now (score_additions k last_update events) score (to_uint now) in
      (
        set_score k r.0 r.1 caches,
        record { key = k; score = r.0; last_update = r.1; first_update = first_update },
      )

  -- the loop over the result of getResourceScoreCacheQuery, which has at most one row since the
  -- columns are the primary key; without a row, the insertion of a new one has succeeded
  unfoldable pub update_found :
      Scoring R D
      → ℕ
      → ScoreKey
      → List ResourceEvent
      → List (ResourceScoreCache R)
      → List (ResourceScoreCache R)
      → List (ResourceScoreCache R) × ScoreUpdated R
  update_found sc now k events caches [] =
      update_from sc now k events (caches ++ new_cache sc k now ∷ []) sc.zero_score (to_uint now)
        (to_uint now)
  update_found sc now k events caches (c ∷ cs) =
      update_from sc now k events caches
        (sc.multiply c.cached_score (time_factor sc (to_uint c.last_update) now))
        (to_uint c.last_update) (to_uint c.first_update)

  -- ResourceScoreCache::update: the new table and the arguments of ResourceScoreUpdated
  unfoldable pub update :
      Scoring R D
      → ℕ
      → ScoreKey
      → List ResourceEvent
      → List (ResourceScoreCache R)
      → List (ResourceScoreCache R) × ScoreUpdated R
  update sc now k events caches =
      update_found sc now k events caches (select (is_cache_of k) caches)

-- Every event has begun by the time.
abbrev pub HaveBegun : ℕ → List ResourceEvent → Type 0
HaveBegun now [] = Unit {0}
HaveBegun now (e ∷ es) = (e.start ≤ now) × HaveBegun now es

select-HaveBegun :
    (k : ScoreKey) (now : ℕ) (es : List ResourceEvent)
    → HaveBegun now es
    → select (λ e. is_event_of k e && ltb now e.start) es ≡ []
unfolding select
select-HaveBegun k now [] h = refl
select-HaveBegun k now (e ∷ es) h = ground (arith, select-HaveBegun k now es h.1, h.0)

pub to_uint_small : (n : ℕ) → n < 4294967296 → to_uint n ≡ n
to_uint_small n h = omega (arith, h)

module _ {R : Type 0} where
  no_cache-tail :
      (k : ScoreKey) (c : ResourceScoreCache R) (cs : List (ResourceScoreCache R))
      → select (is_cache_of k) (c ∷ cs) ≡ []
      → (is_cache_of k c ≡ false) × (select (is_cache_of k) cs ≡ [])
  unfolding select
  no_cache-tail k c cs h = elim (Bool-cases (is_cache_of k c)) [
    | inl e ↦ ground (arith, rw e at h)
    | inr e ↦ (e, rw e at h)
  ]

  set_score-fresh :
      (k : ScoreKey) (score : R) (t : ℕ) (new : ResourceScoreCache R)
      (cs : List (ResourceScoreCache R))
      → select (is_cache_of k) cs ≡ []
      → set_score k score t (cs ++ new ∷ []) ≡ cs ++ set_score k score t (new ∷ [])
  unfolding set_score
  set_score-fresh k score t new [] h = refl
  set_score-fresh k score t new (c ∷ cs) h =
      let tail = no_cache-tail k c cs h in rw (tail.0, set_score-fresh k score t new cs tail.1) refl

module _ {R D : Type 0} where
  set_score-new_cache :
      (sc : Scoring R D) (k : ScoreKey) (score : R) (now t : ℕ)
      → set_score k score t (new_cache sc k now ∷ [])
        ≡ record (new_cache sc k now) { cached_score = score; last_update = t } ∷ []
  unfolding set_score
  set_score-new_cache sc k score now t =
      ground (arith, ==_refl k.activity, ==_refl k.application, ==_refl k.resource)

  -- The first update of a cache, at a time that fits into 32 bits and that no event of the table
  -- begins after, stores and reports the score zero with this time as the last and the first
  -- update, whatever events of the resource stand in the table.
  pub first_update_zero :
      (sc : Scoring R D) (now : ℕ) (k : ScoreKey) (events : List ResourceEvent)
      (caches : List (ResourceScoreCache R))
      → select (is_cache_of k) caches ≡ []
      → now < 4294967296
      → HaveBegun now events
      → update sc now k events caches ≡ (
        caches ++ new_cache sc k now ∷ [],
        record { key = k; score = sc.zero_score; last_update = now; first_update = now },
      )
  unfolding update update_found update_from order_by_start add_intervals
  first_update_zero sc now k events caches none_yet small begun =
      rw
        (
          none_yet,
          to_uint_small now small,
          select-HaveBegun k now events begun,
          set_score-fresh k sc.zero_score now (new_cache sc k now) caches none_yet,
          set_score-new_cache sc k sc.zero_score now now,
        )
        refl
