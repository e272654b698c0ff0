-- ===== src/Plugins/Desktops.antt =====
-- VirtualDesktopSwitchPlugin (src/service/plugins/virtualdesktopswitch).
use kactivitymanagerd.Prelude.{
  ℕ, ◌≤◌, String, false, Option, none, some, ◌≡◌, arith, ◌==◌, ==_iff, ==_refl, string_eq, leb,
  Hash, lookup, insert, remove, lookup-insert, if◌then◌else◌,
}

-- m_currentActivity, the entries "desktop-for-…" of the configuration by their activity, and the
-- current desktop and the number of desktops of KWindowSystem
pub record Switcher : Type 0 where
  pub current_activity : String
  pub desktop_for : Hash String ℕ
  pub current_desktop : ℕ
  pub number_of_desktops : ℕ

-- the desktop that is set for an entry; a missing one reads -1
unfoldable pub desktop_to_set : Option ℕ → ℕ → ℕ → ℕ
desktop_to_set none number now = now
desktop_to_set (some d) number now = if leb d number then d else now

-- VirtualDesktopSwitchPlugin::currentActivityChanged
unfoldable pub current_activity_changed : String → Switcher → Switcher
current_activity_changed activity s =
    let saved = insert s.current_activity s.current_desktop s.desktop_for in
    if s.current_activity == activity then s else record s {
      desktop_for = saved;
      current_activity = activity;
      current_desktop =
          desktop_to_set (lookup activity saved) s.number_of_desktops s.current_desktop;
    }

-- VirtualDesktopSwitchPlugin::activityRemoved
unfoldable pub activity_removed : String → Switcher → Switcher
activity_removed activity s = record s { desktop_for = remove activity s.desktop_for }

changed_other :
    (a : String) (s : Switcher)
    → (s.current_activity == a) ≡ false
    → current_activity_changed a s ≡ record s {
      desktop_for = insert s.current_activity s.current_desktop s.desktop_for;
      current_activity = a;
      current_desktop =
          desktop_to_set
            (lookup a (insert s.current_activity s.current_desktop s.desktop_for))
            s.number_of_desktops
            s.current_desktop;
    }
unfolding current_activity_changed
changed_other a s h = ground (arith, h)

-- After a change to another activity, and from there to any desktop, the change back to the first
-- activity sets the desktop that it had, if that one still exists, and keeps the desktop of the other
-- activity for its next time.
pub desktop_returns :
    (b : String) (d n : ℕ) (s : Switcher)
    → (s.current_activity == b) ≡ false
    → s.current_desktop ≤ n
    → let away = record (current_activity_changed b s) {
      current_desktop = d;
      number_of_desktops = n;
    } in
      ((current_activity_changed s.current_activity away).current_desktop ≡ s.current_desktop)
      × (lookup b (current_activity_changed s.current_activity away).desktop_for ≡ some d)
unfolding current_activity_changed desktop_to_set
desktop_returns b d n s h le =
    let a = s.current_activity in
    let saved = insert a s.current_desktop s.desktop_for in
    ground (
      arith,
      h,
      ==_iff a b,
      ==_iff b a,
      ==_refl b,
      ==_refl a,
      lookup-insert b a d saved,
      lookup-insert b b d saved,
      lookup-insert a a s.current_desktop s.desktop_for,
    )
