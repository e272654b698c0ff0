-- ===== src/KsmServer.antt =====
-- KSMServer::Private of src/service/ksmserver/KSMServer.cpp: the queue of session requests and the
-- calls of kwin. Queued invocations of `process` and kwin's replies are actions of the event loop;
-- whether kwin is on the bus is an argument of each action.
pub mod Queue
pub mod Replies
use kactivitymanagerd.Prelude.{
  ℕ, zero, suc, ◌+◌, ◌-◌, String, ◌==◌, string_eq, Bool, true, false, not, List, [], ◌∷◌, ◌++◌,
  Option, none, some, if◌then◌else◌, contains, get_elem?, nat_beq, keys, ltb,
}

-- KSMServer::ReturnStatus
pub data Status : Type 0 where
  started stopped failed_to_stop : Status

-- QDBusPendingReply<bool>: an error, or the value that kwin answers
pub data Reply : Type 0 where
  error : Reply
  value : Bool → Reply

-- `posted` counts the queued invocations of `process`; `in_flight` holds the calls of kwin without
-- a reply, and `reported` the emitted `activitySessionStateChanged`, both oldest first.
pub record KsmServer : Type 0 where
  pub processing : Bool
  pub processing_activity : String
  pub queue : List (String × Bool)
  pub posted : ℕ
  pub in_flight : List (String × Bool)
  pub reported : List (String × Status)

-- KSMServer::Private::Private
abbrev pub init : KsmServer
init = record {
  processing = false;
  processing_activity = "";
  queue = [];
  posted = 0;
  in_flight = [];
  reported = [];
}

unfoldable pub sub_session_send_event : Status → KsmServer → KsmServer
sub_session_send_event event s = if s.processing_activity == "" then s else record s {
  reported = s.reported ++ (s.processing_activity, event) ∷ [];
  processing_activity = "";
}

-- `queue << qMakePair(activity, start)`, and `process` is invoked later unless it is already
enqueue : String → Bool → KsmServer → KsmServer
enqueue activity start s =
    if s.processing then record s { queue = s.queue ++ (activity, start) ∷ [] } else record s {
      queue = s.queue ++ (activity, start) ∷ [];
      processing = true;
      posted = s.posted + 1;
    }

unfoldable pub process_later : Bool → String → Bool → KsmServer → KsmServer
unfolding sub_session_send_event enqueue contains
process_later kwin_is_valid activity start s =
    if kwin_is_valid
    then (if contains (keys s.queue) activity then s else enqueue activity start s)
    else sub_session_send_event (if start then started else stopped) s

unfoldable pub start_activity_session : Bool → String → KsmServer → KsmServer
unfolding process_later
start_activity_session kwin_is_valid activity s = process_later kwin_is_valid activity true s

unfoldable pub stop_activity_session : Bool → String → KsmServer → KsmServer
unfolding process_later
stop_activity_session kwin_is_valid activity s = process_later kwin_is_valid activity false s

unfoldable pub make_running : Bool → Bool → KsmServer → KsmServer
unfolding sub_session_send_event
make_running kwin_is_valid v s =
    if kwin_is_valid
    then record s { in_flight = s.in_flight ++ (s.processing_activity, v) ∷ [] }
    else sub_session_send_event (if v then started else stopped) s

process_queue : Bool → List (String × Bool) → KsmServer → KsmServer
unfolding make_running
process_queue kwin_is_valid [] s = record s { processing = false }
process_queue kwin_is_valid ((activity, start) ∷ rest) s =
    let s' =
      make_running kwin_is_valid start
        (record s { queue = rest; processing_activity = activity }) in
    record s' { posted = s'.posted + 1 }

unfoldable pub process : Bool → KsmServer → KsmServer
unfolding process_queue
process kwin_is_valid s = process_queue kwin_is_valid s.queue s

unfoldable pub start_call_finished : Reply → KsmServer → KsmServer
unfolding sub_session_send_event
start_call_finished error s = sub_session_send_event started s
start_call_finished (value retval) s =
    sub_session_send_event (if not retval then stopped else started) s

unfoldable pub stop_call_finished : Reply → KsmServer → KsmServer
unfolding sub_session_send_event
stop_call_finished error s = sub_session_send_event stopped s
stop_call_finished (value retval) s =
    sub_session_send_event (if not retval then failed_to_stop else stopped) s

-- What the event loop does next. `finished i` is the arrival of the reply to the `i`th call.
pub data Action : Type 0 where
  start stop : Bool → String → Action
  invoke_process : Bool → Action
  finished : ℕ → Reply → Action

abbrev pub remove_at {ℓ} : {A : Type ℓ} → List A → ℕ → List A
remove_at [] i = []
remove_at (x ∷ xs) zero = xs
remove_at (x ∷ xs) (suc i) = x ∷ remove_at xs i

-- the slot that `makeRunning` connects to the watcher of a call
unfoldable pub call_finished : Option (String × Bool) → ℕ → Reply → KsmServer → KsmServer
unfolding start_call_finished stop_call_finished
call_finished none i reply s = s
call_finished (some (activity, true)) i reply s =
    start_call_finished reply (record s { in_flight = remove_at s.in_flight i })
call_finished (some (activity, false)) i reply s =
    stop_call_finished reply (record s { in_flight = remove_at s.in_flight i })

unfoldable pub perform : Action → KsmServer → KsmServer
unfolding start_activity_session stop_activity_session process call_finished
perform (start kwin_is_valid activity) s = start_activity_session kwin_is_valid activity s
perform (stop kwin_is_valid activity) s = stop_activity_session kwin_is_valid activity s
perform (invoke_process kwin_is_valid) s =
    if ltb 0 s.posted then process kwin_is_valid (record s { posted = s.posted - 1 }) else s
perform (finished i reply) s = call_finished (get_elem? s.in_flight i) i reply s

unfoldable pub run : List Action → KsmServer → KsmServer
run [] s = s
run (a ∷ as') s = run as' (perform a s)
