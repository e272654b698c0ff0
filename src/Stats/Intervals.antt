-- ===== src/Stats/Intervals.antt =====
-- The lengths of events in ResourceScoreCache::update (src/service/plugins/sqlite/ResourceScoreCache.cpp).
use kactivitymanagerd.Prelude.{
  ℕ, ◌-◌, ◌<◌, ◌≤◌, Option, some, none, [], ◌∷◌, ◌≡◌, refl, arith, ◌==◌, nat_eq, true, false,
}
use kactivitymanagerd.Stats.Tables.{ResourceEvent}
use kactivitymanagerd.Stats.Scores.{
  ScoreKey, Scoring, to_uint, uint_minus, time_factor, add_intervals, to_uint_small,
}

-- an event of a resource
abbrev pub event_of : ScoreKey → ℕ → Option ℕ → ResourceEvent
event_of k start finish = record {
  used_activity = k.activity;
  initiating_agent = k.application;
  targetted_resource = k.resource;
  start = start;
  finish = finish;
}

uint_minus-le : (a b : ℕ) → b ≤ a → a < 4294967296 → uint_minus a b ≡ a - b
uint_minus-le a b h small = omega (arith, h, small)

uint_minus-wraps : (b : ℕ) → 0 < b → b < 4294967296 → uint_minus 0 b ≡ 4294967296 - b
uint_minus-wraps b h small = omega (arith, h, small)

module _ {R D : Type 0} (sc : Scoring R D) (now start finish last : ℕ) (k : ScoreKey)
    (score : R) where
  -- What one event adds to a score, when its times fit into 32 bits: one that has lasted for some
  -- seconds, its length with the factor of its end; one that began and ended in the same second, that
  -- factor; and one that is still open, 2^32 seconds less its start with the factor of 1970.
  pub interval_lengths :
      0 < start
      → start < finish
      → finish < 4294967296
      → (add_intervals sc now (event_of k start (some finish) ∷ []) score last
          ≡ (sc.add score (sc.per_minutes (time_factor sc finish now) (finish - start)), start))
        × (add_intervals sc now (event_of k start (some start) ∷ []) score last
            ≡ (sc.add score (time_factor sc start now), start))
        × (add_intervals sc now (event_of k start none ∷ []) score last
            ≡ (sc.add score (sc.per_minutes (time_factor sc 0 now) (4294967296 - start)), start))
  unfolding add_intervals
  interval_lengths positive ends small =
      let s : to_uint start ≡ start = to_uint_small start (omega (arith, ends, small)) in
      let f : to_uint finish ≡ finish = to_uint_small finish small in
      let lasted : uint_minus finish start ≡ finish - start =
        uint_minus-le finish start (omega (arith, ends)) small in
      let empty : uint_minus start start ≡ start - start =
        uint_minus-le start start (omega arith) (omega (arith, ends, small)) in
      let open_end = uint_minus-wraps start positive (omega (arith, ends, small)) in
      let longer : (finish - start == 0) ≡ false = ground (arith, ends) in
      let wrapped : (4294967296 - start == 0) ≡ false = ground (arith, ends, small) in
      let none_left : (start - start == 0) ≡ true = ground arith in
      (
        rw (s, f, lasted, longer) refl,
        rw (s, empty, none_left) refl,
        rw (s, open_end, wrapped) refl,
      )
