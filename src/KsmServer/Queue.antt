-- ===== src/KsmServer/Queue.antt =====
-- The queue of KSMServer::Private between two events of the event loop.
use kactivitymanagerd.Prelude.{
  ℕ, zero, suc, ◌-◌, ◌<◌, String, string_eq, Bool, true, false, List, [], ◌∷◌, ◌++◌, Option, none,
  some, if◌then◌else◌, contains, Distinct, Distinct-snoc, get_elem?, keys, ltb, arith, ◌≡◌, refl,
  sym, Bool-cases, inl, inr, length,
}
use mathlib.Core.List.{append_assoc, append-nil}
use kactivitymanagerd.KsmServer.{
  KsmServer, Status, Reply, Action, start, stop, invoke_process, finished, init,
  sub_session_send_event, enqueue, process_later, process_queue, process, make_running,
  call_finished, perform, run,
}

-- `process` is due exactly once while `processing` is set; no activity is queued twice; a request
-- in the queue has `process` coming.
pub record IsScheduled (s : KsmServer) : Type 0 where
  pub due : s.posted ≡ (if s.processing then 1 else 0)
  pub distinct : Distinct (keys s.queue)
  pub served : s.processing ≡ false → s.queue ≡ []

pub init-IsScheduled : IsScheduled init
init-IsScheduled = record { due = refl; distinct = tt; served = λ _. refl }

keys-snoc :
    (q : List (String × Bool)) (a : String) (b : Bool) → keys (q ++ (a, b) ∷ []) ≡ keys q ++ a ∷ []
keys-snoc [] a b = refl
keys-snoc ((k, v) ∷ q) a b = ground (arith, keys-snoc q a b)

enqueue-IsScheduled :
    (a : String) (b : Bool) (s : KsmServer)
    → contains (keys s.queue) a ≡ false
    → IsScheduled s
    → IsScheduled (enqueue a b s)
unfolding enqueue
enqueue-IsScheduled a b s new h =
    ground (arith, keys-snoc s.queue a b, Distinct-snoc (keys s.queue) a new h.distinct)

send-IsScheduled :
    (e : Status) (s : KsmServer) → IsScheduled s → IsScheduled (sub_session_send_event e s)
unfolding sub_session_send_event
send-IsScheduled e s h = ground arith

later-IsScheduled :
    (v : Bool) (a : String) (b : Bool) (s : KsmServer)
    → IsScheduled s
    → IsScheduled (process_later v a b s)
later-IsScheduled true a b s h = elim (Bool-cases (contains (keys s.queue) a)) [
  | inl old ↦ unfold process_later in rw old h
  | inr new ↦ unfold process_later in rw new (enqueue-IsScheduled a b s new h)
]
later-IsScheduled false a b s h = unfold process_later in send-IsScheduled _ s h

process_queue-IsScheduled :
    (v : Bool) (q : List (String × Bool)) (s : KsmServer)
    → s.queue ≡ q
    → s.posted ≡ 0
    → s.processing ≡ true
    → Distinct (keys q)
    → IsScheduled (process_queue v q s)
unfolding process_queue make_running
process_queue-IsScheduled v [] s e p r d = ground arith
process_queue-IsScheduled v ((a, b) ∷ q) s e p r d = ground arith

process-IsScheduled :
    (v : Bool) (s : KsmServer)
    → IsScheduled s
    → 0 < s.posted
    → IsScheduled (process v (record s { posted = s.posted - 1 }))
unfolding process
process-IsScheduled v s h p =
    process_queue-IsScheduled v s.queue (record s { posted = s.posted - 1 }) refl
      (ground (arith, h.due)) (ground (arith, h.due)) h.distinct

finished-IsScheduled :
    (o : Option (String × Bool)) (i : ℕ) (r : Reply) (s : KsmServer)
    → IsScheduled s
    → IsScheduled (call_finished o i r s)
unfolding call_finished
finished-IsScheduled none i r s h = h
finished-IsScheduled (some (a, true)) i r s h = ground arith
finished-IsScheduled (some (a, false)) i r s h = ground arith

-- Every action of the event loop keeps the scheduling invariant: `process` is posted exactly once
-- while the server is processing, no activity is queued twice, and nothing waits in the queue of a
-- server that is not processing.
pub perform-IsScheduled : (a : Action) (s : KsmServer) → IsScheduled s → IsScheduled (perform a s)
perform-IsScheduled (start v a) s h = unfold perform in later-IsScheduled v a true s h
perform-IsScheduled (stop v a) s h = unfold perform in later-IsScheduled v a false s h
perform-IsScheduled (finished i r) s h =
    unfold perform in finished-IsScheduled (get_elem? s.in_flight i) i r s h
perform-IsScheduled (invoke_process v) s h = elim (Bool-cases (ltb 0 s.posted)) [
  | inl due ↦ unfold perform in rw due (process-IsScheduled v s h (ground arith))
  | inr idle ↦ unfold perform in rw idle h
]

-- The same after any sequence of actions.
pub run-IsScheduled :
    (acts : List Action) (s : KsmServer) → IsScheduled s → IsScheduled (run acts s)
unfolding run
run-IsScheduled [] s h = h
run-IsScheduled (a ∷ acts) s h = run-IsScheduled acts (perform a s) (perform-IsScheduled a s h)

-- `n` turns of the event loop, each of which runs the posted `process`
abbrev pub turns : ℕ → List Action
turns zero = []
turns (suc n) = invoke_process true ∷ turns n

-- What one run of `process` does to a server with a request waiting, kwin being there.
abbrev dispatched : String × Bool → List (String × Bool) → KsmServer → KsmServer
dispatched (a, b) q s = record s {
  queue = q;
  processing_activity = a;
  in_flight = s.in_flight ++ (a, b) ∷ [];
  posted = 1;
}

turn-dispatched :
    (a : String) (b : Bool) (q : List (String × Bool)) (s : KsmServer)
    → s.queue ≡ (a, b) ∷ q
    → s.posted ≡ 1
    → perform (invoke_process true) s ≡ dispatched (a, b) q s
unfolding perform make_running process_queue
turn-dispatched a b q s e p = ground arith

turn_empty :
    (s : KsmServer)
    → s.queue ≡ []
    → s.posted ≡ 1
    → perform (invoke_process true) s ≡ record s { posted = 0; processing = false }
unfolding perform process_queue
turn_empty s e p = ground arith

drain :
    (q : List (String × Bool)) (s : KsmServer)
    → s.queue ≡ q
    → s.posted ≡ 1
    → let t = run (turns (suc (length q))) s in
      (t.in_flight ≡ s.in_flight ++ q) × (t.queue ≡ []) × (t.processing ≡ false) × (t.posted ≡ 0)
unfolding run
drain [] s e p = rw (turn_empty s e p) (sym (append-nil s.in_flight), e, refl, refl)
drain ((a, b) ∷ q) s e p =
    rw (turn-dispatched a b q s e p, run)
      (rw (sym (append_assoc s.in_flight ((a, b) ∷ []) q))
        (drain q (dispatched (a, b) q s) refl refl))

-- While kwin answers on the bus, a server that is processing hands every queued request to kwin, in
-- the order of the queue, within as many turns of the event loop as there are requests and one
-- more, and is idle afterwards.
pub turns-drain :
    (s : KsmServer)
    → IsScheduled s
    → s.processing ≡ true
    → let t = run (turns (suc (length s.queue))) s in
      (t.in_flight ≡ s.in_flight ++ s.queue)
      × (t.queue ≡ [])
      × (t.processing ≡ false)
      × (t.posted ≡ 0)
turns-drain s h busy = drain s.queue s refl (ground (arith, h.due))
