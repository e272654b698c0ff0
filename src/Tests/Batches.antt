-- ===== src/Tests/Batches.antt =====
-- Events on their way to the tables, at fixed inputs.
use kactivitymanagerd.Prelude.{
  ◌-◌, Bool, true, false, some, none, List, [], ◌∷◌, ◌++◌, ◌≡◌, refl, arith, ◌==◌, string_eq,
  nat_eq, any, contains, if◌then◌else◌,
}
use kactivitymanagerd.Event.{Event, accessed, event_beq}
use kactivitymanagerd.Resources.Events.{init, register_resource_event, run_round}
use kactivitymanagerd.Storage.Transactions.{Driver, IsSqlite, begin_transaction, execute}
use kactivitymanagerd.Stats.Events.{
  accepted_event, validate_event, add_events, store_event, store_events,
}
use kactivitymanagerd.Stats.Scores.{time_factor, add_intervals}
use kactivitymanagerd.Stats.Intervals.{event_of, interval_lengths}
use kactivitymanagerd.Stats.Pipeline.{access, access_row, access_recorded}
use kactivitymanagerd.Stats.Batches.{Rows, rows_of, store_commands, batch_commands}
use kactivitymanagerd.Stats.Tearing.{batch_stored, batch_torn}
use kactivitymanagerd.Tests.Statistics.{world, stats, seen, whole, key}

interval_lengths_example :
    (add_intervals whole 100 (event_of key 10 (some 70) ∷ []) 0 100
      ≡ (whole.add 0 (whole.per_minutes (time_factor whole 70 100) (70 - 10)), 10))
    × (add_intervals whole 100 (event_of key 10 (some 10) ∷ []) 0 100
        ≡ (whole.add 0 (time_factor whole 10 100), 10))
    × (add_intervals whole 100 (event_of key 10 none ∷ []) 0 100
        ≡ (whole.add 0 (whole.per_minutes (time_factor whole 0 100) (4294967296 - 10)), 10))
interval_lengths_example =
    interval_lengths whole 100 10 70 100 key 0 (omega arith) (omega arith) (omega arith)

not_again : event_beq (init 0).last_event (access 5000 "kate" 7 "/notes") ≡ false
unfolding init
not_again = refl

taken_in :
    accepted_event world (stats []) (validate_event world (access 5000 "kate" 7 "/notes")) ≡ true
unfolding accepted_event validate_event contains any
taken_in = refl

access_recorded_example :
    let e = access 5000 "kate" 7 "/notes" in
    ((run_round (register_resource_event 5000 "kate" 7 "/notes" accessed (init 0))).processed
      ≡ (init 0).processed ++ ((init 0).events ++ e ∷ []) ∷ [])
    × ((add_events world ((init 0).events ++ e ∷ []) (stats [])).events
        ≡ (add_events world (init 0).events (stats [])).events
          ++ access_row world 5000 "kate" (validate_event world e).uri ∷ [])
access_recorded_example =
    access_recorded world 5000 "kate" 7 "/notes" (init 0) (stats []) refl refl not_again refl
      taken_in

-- a connection to a file
record Connection (S : Type 0) : Type 0 where
  now_visible : S
  in_file : S
  in_transaction : Bool

abbrev sqlite : {S : Type 0} → Driver (Connection S) S
sqlite = record {
  transaction = λ c. record c { in_transaction = true };
  commit = λ c. record c {
    in_file = if c.in_transaction then c.now_visible else c.in_file;
    in_transaction = false;
  };
  exec = λ f c. record c {
    now_visible = f c.now_visible;
    in_file = if c.in_transaction then c.in_file else f c.now_visible;
  };
  visible = λ c. c.now_visible;
  stored = λ c. c.in_file;
  is_open = λ c. c.in_transaction;
}

sqlite-IsSqlite : {S : Type 0} → IsSqlite (sqlite {S = S})
sqlite-IsSqlite = record {
  visible-transaction = λ c. refl;
  stored-transaction = λ c. refl;
  open-transaction = λ c. refl;
  visible-commit = λ c. refl;
  stored-commit = λ c. refl;
  open-commit = λ c. refl;
  visible-exec = λ f c. refl;
  stored-exec = λ f c. refl;
  open-exec = λ f c. refl;
}

abbrev fresh : Connection Rows
fresh = record {
  now_visible = rows_of (stats []);
  in_file = rows_of (stats []);
  in_transaction = false;
}

abbrev two_events : List Event
two_events = seen accessed ∷ seen accessed ∷ []

batch_stored_example :
    (sqlite.is_open (execute sqlite (batch_commands world two_events (rows_of (stats []))) fresh)
      ≡ false)
    × (sqlite.stored (execute sqlite (batch_commands world two_events (rows_of (stats []))) fresh)
        ≡ rows_of (store_events world two_events (stats [])))
batch_stored_example =
    batch_stored sqlite sqlite-IsSqlite world two_events (stats []) fresh refl refl refl

no_row : any {A = _} (λ i. i.targetted_resource == "/notes") (rows_of (stats [])).infos ≡ false
unfolding any
no_row = refl

batch_torn_example :
    let c' =
      execute sqlite
        (begin_transaction ∷ store_commands world (seen accessed) (rows_of (stats [])))
        fresh in
    (sqlite.is_open c' ≡ false)
    × (sqlite.stored c' ≡ rows_of (store_event world (seen accessed) (stats [])))
batch_torn_example =
    batch_torn sqlite sqlite-IsSqlite world (seen accessed) "/notes" (stats []) fresh refl refl refl
      no_row refl
