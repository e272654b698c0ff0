-- ===== src/Stats/History.antt =====
-- What the removal of statistics keeps.
use kactivitymanagerd.Prelude.{
  ℕ, String, false, not, ◌&&◌, List, [], ◌∷◌, ◌≡◌, refl, arith, ◌==◌, string_eq, nat_eq, select,
}
use kactivitymanagerd.Stats.Tables.{ResourceEvent}
use kactivitymanagerd.Stats.Events.{is_open}
use kactivitymanagerd.Stats.Deletion.{
  History, Clock, is_of_activity, ends_after, recent_since, delete_recent_stats,
}

open_rows_kept :
    (activity : String) (since : ℕ) (es : List ResourceEvent)
    → select is_open
        (select (λ e. not (is_of_activity activity e.used_activity && ends_after since e)) es)
      ≡ select is_open es
unfolding select
open_rows_kept activity since [] = refl
open_rows_kept activity since (e ∷ es) = ground (arith, open_rows_kept activity since es)

-- When DeleteRecentStats is asked for a period, and not for everything, it keeps every row of a
-- resource that is still open, whenever it was opened.
pub delete_recent_stats_keeps_open :
    {R : Type 0} (c : Clock) (activity : String) (count : ℕ) (what : String) (s : History R)
    → (what == "everything") ≡ false
    → select is_open (delete_recent_stats c activity count what s).events ≡ select is_open s.events
unfolding delete_recent_stats
delete_recent_stats_keeps_open c activity count what s h =
    rw h (open_rows_kept activity (recent_since c count what) s.events)
