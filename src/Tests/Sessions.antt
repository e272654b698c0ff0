-- ===== src/Tests/Sessions.antt =====
-- KsmServer at fixed inputs.
use kactivitymanagerd.Prelude.{true, false, [], ◌∷◌, ◌≡◌, refl, ne_of_beq, string_eq, contains}
use kactivitymanagerd.KsmServer.{
  KsmServer, started, stopped, value, start, stop, invoke_process, finished, init, perform, run,
}
use kactivitymanagerd.KsmServer.Queue.{
  IsScheduled, init-IsScheduled, perform-IsScheduled, turns, turns-drain,
}
use kactivitymanagerd.KsmServer.Replies.{idle, request-reported, replies_mixed_up, two_requests}

perform-IsScheduled_example : IsScheduled (perform (start true "a") init)
perform-IsScheduled_example = perform-IsScheduled (start true "a") init init-IsScheduled

-- a server with two requests waiting
abbrev waiting : KsmServer
waiting = record init { processing = true; queue = ("a", true) ∷ ("b", false) ∷ []; posted = 1 }

waiting-run : run (start true "a" ∷ stop true "b" ∷ []) init ≡ waiting
unfolding run perform
waiting-run = refl

waiting-IsScheduled : IsScheduled waiting
unfolding contains
waiting-IsScheduled = record { due = refl; distinct = (refl, (refl, tt)); served = λ h. cc }

turns-drain_example :
    let t = run (turns 3) waiting in
    (t.in_flight ≡ ("a", true) ∷ ("b", false) ∷ [])
    × (t.queue ≡ [])
    × (t.processing ≡ false)
    × (t.posted ≡ 0)
turns-drain_example = turns-drain waiting waiting-IsScheduled refl

request-reported_example :
    run
      (start true "a" ∷ invoke_process true ∷ invoke_process true ∷ finished 0 (value true) ∷ [])
      (idle [])
    ≡ idle (("a", started) ∷ [])
request-reported_example = request-reported "a" true (value true) [] (ne_of_beq _ _ refl)

replies_mixed_up_example :
    (run
      (finished 0 (value false) ∷ finished 0 (value true) ∷ [])
      (run (two_requests "a" true "b" true) init)).reported
    ≡ ("b", stopped) ∷ []
replies_mixed_up_example =
    replies_mixed_up "a" "b" true true (value false) (value true) (ne_of_beq _ _ refl)
      (ne_of_beq _ _ refl)
