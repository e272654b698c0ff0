-- ===== src/Tests/Focus.antt =====
-- Resources and SlcPlugin at fixed inputs.
use mathlib.Core.List.{Sublist}
use kactivitymanagerd.Prelude.{ℕ, ◌+◌, String, List, [], ◌∷◌, ◌++◌, ◌≡◌, string_eq, nat_eq}
use kactivitymanagerd.Event.{Event, event_eq, opened, modified, focussed_in}
use kactivitymanagerd.Resources.Events.{
  init, window_closed, Call, register, activate_window, thread_round, run,
}
use kactivitymanagerd.Resources.Windows.{window_closed_silent}
use kactivitymanagerd.Resources.Delivery.{concat, delivered_in_order}
use kactivitymanagerd.Slc
use kactivitymanagerd.Slc.{
  Slc, Notice, event, mimetype, title, handle, handle_all, announced, focus_announced,
  mimetype_kept, focussed_resource_mimetype,
}

abbrev zero_length : String → ℕ
zero_length s = 0

abbrev calls : List Call
calls =
    register 10 "kate" 7 "/x" opened
    ∷ register 11 "kate" 7 "/y" focussed_in
    ∷ thread_round
    ∷ activate_window 12 13 7
    ∷ []

delivered_in_order_example :
    Sublist
      (concat (run zero_length calls (init 0)).processed ++ (run zero_length calls (init 0)).events)
      (run zero_length calls (init 0)).registered
delivered_in_order_example = delivered_in_order zero_length 0 calls

window_closed_silent_example :
    (window_closed (λ i. i + 20) 7 (run zero_length calls (init 0))).registered
    ≡ (run zero_length calls (init 0)).registered
window_closed_silent_example = window_closed_silent zero_length 0 calls (λ i. i + 20) 7

abbrev edit : ℕ → ℕ → Event
edit now k = record { application = "kate"; wid = 0; uri = "/x"; kind = k; timestamp = now }

abbrev notices : List Notice
notices = event (edit 10 focussed_in) ∷ title "/x" "X" ∷ event (edit 11 modified) ∷ []

focus_announced_example :
    announced (handle_all notices Slc.init).focus_changed
    ≡ (handle_all notices Slc.init).focussed_resource
focus_announced_example = focus_announced notices
