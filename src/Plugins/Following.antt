-- ===== src/Plugins/Following.antt =====
-- GlobalShortcutsPlugin (src/service/plugins/globalshortcuts) beside Activities
-- (src/service/Activities.cpp), whose signals it is connected to.
use kactivitymanagerd.Prelude.{
  String, Bool, false, not, ◌&&◌, ◌||◌, List, [], ◌∷◌, ◌≡◌, refl, ap, ◌∙◌, arith, ◌==◌, string_eq,
  has_key, contains,
}
use kactivitymanagerd.Activities.Data.{Activities, Signal, activity_added, activity_removed}
use kactivitymanagerd.Activities.Listing.{Collation, list_activities}
use kactivitymanagerd.Activities.Consistency.{IsConsistent}
use kactivitymanagerd.Activities.Calls.{Call, run, list_activities_exact}
use kactivitymanagerd.Activities.Data
use kactivitymanagerd.Activities.Announcing.{tracked}
use kactivitymanagerd.Activities.Announced.{run-IsAnnounced}
use kactivitymanagerd.Plugins.Shortcuts
use kactivitymanagerd.Plugins.Shortcuts.{
  Shortcuts, zero_uuid, object_name, init, IsMatched, init-IsMatched, added-IsMatched,
  removed-IsMatched, contains-activity_added, contains-activity_removed, contains-init,
}

-- the slots that GlobalShortcutsPlugin::init connects to the signals of Activities
unfoldable pub receive : Signal → Shortcuts → Shortcuts
receive (activity_added a) p = Shortcuts.activity_added a p
receive (activity_removed a) p = Shortcuts.activity_removed a p
receive _ p = p

-- the signals in the order in which they were sent: the newest is the first of the list
unfoldable pub receive_all : List Signal → Shortcuts → Shortcuts
receive_all [] p = p
receive_all (e ∷ es) p = receive e (receive_all es p)

receive_all-IsMatched :
    (es : List Signal) (p : Shortcuts) → IsMatched p → IsMatched (receive_all es p)
unfolding receive_all receive
receive_all-IsMatched [] p h = h
receive_all-IsMatched (activity_added a ∷ es) p h =
    added-IsMatched a (receive_all es p) (receive_all-IsMatched es p h)
receive_all-IsMatched (activity_removed a ∷ es) p h =
    removed-IsMatched a (receive_all es p) (receive_all-IsMatched es p h)
receive_all-IsMatched (_ ∷ es) p h = receive_all-IsMatched es p h

-- the plugin's list is what one knows who follows the signals
contains-receive_all :
    (es : List Signal) (b : String) (p : Shortcuts)
    → (b == zero_uuid) ≡ false
    → contains (receive_all es p).activities_list b ≡ tracked es (contains p.activities_list) b
unfolding receive_all receive tracked
contains-receive_all [] b p n = refl
contains-receive_all (activity_added a ∷ es) b p n =
    ground (arith, contains-activity_added a b (receive_all es p) n, contains-receive_all es b p n)
contains-receive_all (activity_removed a ∷ es) b p n =
    ground (arith, contains-activity_removed a b (receive_all es p), contains-receive_all es b p n)
contains-receive_all (_ ∷ es) b p n = contains-receive_all es b p n

tracked-same :
    (es : List Signal) (b : String) (p q : String → Bool)
    → p b ≡ q b
    → tracked es p b ≡ tracked es q b
unfolding tracked
tracked-same [] b p q h = h
tracked-same (activity_added a ∷ es) b p q h = ap (λ x. a == b || x) (tracked-same es b p q h)
tracked-same (activity_removed a ∷ es) b p q h =
    ap (λ x. not (a == b) && x) (tracked-same es b p q h)
tracked-same (_ ∷ es) b p q h = tracked-same es b p q h

-- A plugin that is set up with the answer of ListActivities, and has then received the signals that
-- any calls emit at once, has an action for exactly the activities that there are after the calls,
-- the zero uuid aside; the calls start from a consistent state in which no signal is under way and no
-- activity has the empty id.
pub action_for_each :
    (c : Collation) (ks : List Call) (s : Activities) (b : String)
    → IsConsistent s
    → has_key s.activities "" ≡ false
    → s.emitted ≡ []
    → (b == zero_uuid) ≡ false
    → contains (receive_all (run c ks s).emitted (init (list_activities s))).actions (object_name b)
      ≡ has_key (run c ks s).activities b
unfolding tracked run
action_for_each c ks s b h unnamed quiet n =
    let es = (run c ks s).emitted in
    let p = init (list_activities s) in
    let listed =
      contains-init (list_activities s) b n ∙ (list_activities_exact c [] s h b Data.running).1 in
    unfold IsMatched in
    receive_all-IsMatched es p (init-IsMatched (list_activities s)) b n
    ∙ contains-receive_all es b p n
    ∙ tracked-same es b (contains p.activities_list) (has_key s.activities) listed
    ∙ run-IsAnnounced c (has_key s.activities) ks s h unnamed (λ a. rw quiet refl) b
