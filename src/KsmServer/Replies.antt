-- ===== src/KsmServer/Replies.antt =====
-- What KSMServer::Private reports to Activities for the replies of kwin.
use kactivitymanagerd.Prelude.{
  ℕ, String, string_eq, Bool, true, false, List, [], ◌∷◌, ◌++◌, Option, none, some, contains, arith,
  ◌≡◌, ◌≢◌, refl, ==_iff,
}
use kactivitymanagerd.KsmServer.{
  KsmServer, Status, started, stopped, failed_to_stop, Reply, error, value, Action, start, stop,
  invoke_process, finished, init, enqueue, process_later, process_queue, call_finished, perform,
  run,
}

-- The state of the session that a reply to a call of kwin shows; a call without an answer counts
-- as done.
abbrev pub outcome : Bool → Reply → Status
outcome true error = started
outcome true (value true) = started
outcome true (value false) = stopped
outcome false error = stopped
outcome false (value true) = stopped
outcome false (value false) = failed_to_stop

abbrev pub request : Bool → String → Action
request true a = start true a
request false a = stop true a

abbrev pub idle : List (String × Status) → KsmServer
idle log = record init { reported = log }

-- A request that is alone in an idle server is passed to kwin once, and its reply is reported once,
-- for the requested activity and with the state that the reply shows; afterwards the server is idle.
pub request-reported :
    (a : String) (b : Bool) (r : Reply) (log : List (String × Status))
    → a ≢ ""
    → run (request b a ∷ invoke_process true ∷ invoke_process true ∷ finished 0 r ∷ []) (idle log)
      ≡ idle (log ++ (a, outcome b r) ∷ [])
unfolding run perform enqueue process_later process_queue contains
request-reported a true error log h = ground (arith, ==_iff a "")
request-reported a true (value true) log h = ground (arith, ==_iff a "")
request-reported a true (value false) log h = ground (arith, ==_iff a "")
request-reported a false error log h = ground (arith, ==_iff a "")
request-reported a false (value true) log h = ground (arith, ==_iff a "")
request-reported a false (value false) log h = ground (arith, ==_iff a "")

-- Both requests are with kwin, and neither has a reply.
abbrev both_called : String → Bool → String → Bool → KsmServer
both_called a u b v = record init {
  processing = true;
  processing_activity = b;
  posted = 1;
  in_flight = (a, u) ∷ (b, v) ∷ [];
}

abbrev pub two_requests : String → Bool → String → Bool → List Action
two_requests a u b v = request u a ∷ request v b ∷ invoke_process true ∷ invoke_process true ∷ []

run-two_requests :
    (a b : String) (u v : Bool) → a ≢ b → run (two_requests a u b v) init ≡ both_called a u b v
unfolding run perform enqueue process_later process_queue contains
run-two_requests a b true true h = ground (arith, ==_iff a b)
run-two_requests a b true false h = ground (arith, ==_iff a b)
run-two_requests a b false true h = ground (arith, ==_iff a b)
run-two_requests a b false false h = ground (arith, ==_iff a b)

first_reply :
    (a b : String) (u v : Bool) (r : Reply)
    → b ≢ ""
    → perform (finished 0 r) (both_called a u b v) ≡ record init {
      processing = true;
      posted = 1;
      in_flight = (b, v) ∷ [];
      reported = (b, outcome u r) ∷ [];
    }
unfolding perform
first_reply a b true v error k = ground (arith, ==_iff b "")
first_reply a b true v (value true) k = ground (arith, ==_iff b "")
first_reply a b true v (value false) k = ground (arith, ==_iff b "")
first_reply a b false v error k = ground (arith, ==_iff b "")
first_reply a b false v (value true) k = ground (arith, ==_iff b "")
first_reply a b false v (value false) k = ground (arith, ==_iff b "")

-- A reply changes nothing that is reported while no activity is in processing.
lost_reply :
    (o : Option (String × Bool)) (i : ℕ) (q : Reply) (s : KsmServer)
    → s.processing_activity ≡ ""
    → (call_finished o i q s).reported ≡ s.reported
unfolding call_finished
lost_reply none i q s h = refl
lost_reply (some (a, true)) i q s h = ground (arith, ==_iff s.processing_activity "")
lost_reply (some (a, false)) i q s h = ground (arith, ==_iff s.processing_activity "")

-- Two requests for different activities that are both handed to kwin before the first reply: the
-- reply to the first is reported for the second activity, and the reply to the second for none.
pub replies_mixed_up :
    (a b : String) (u v : Bool) (r q : Reply)
    → a ≢ b
    → b ≢ ""
    → (run (finished 0 r ∷ finished 0 q ∷ []) (run (two_requests a u b v) init)).reported
      ≡ (b, outcome u r) ∷ []
unfolding run
replies_mixed_up a b u v r q h k =
    rw (run-two_requests a b u v h, first_reply a b u v r k)
      (unfold perform in lost_reply (some (b, v)) 0 q _ refl)

-- the actions of the event loop while kwin is not on the bus
abbrev pub WithoutKwin : Action → Type 0
WithoutKwin (start v a) = v ≡ false
WithoutKwin (stop v a) = v ≡ false
WithoutKwin (invoke_process v) = v ≡ false
WithoutKwin (finished i r) = Unit {0}

abbrev pub AllWithoutKwin : List Action → Type 0
AllWithoutKwin [] = Unit {0}
AllWithoutKwin (k ∷ ks) = WithoutKwin k × AllWithoutKwin ks
