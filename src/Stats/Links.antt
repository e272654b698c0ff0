-- ===== src/Stats/Links.antt =====
-- ResourceLinking (src/service/plugins/sqlite/ResourceLinking.cpp).
use Prim.Native.String.{◌++◌ as append}
use text.Mathlib.Text.{starts_with}
use kactivitymanagerd.Prelude.{
  String, Bool, false, not, ◌&&◌, ◌||◌, Option, none, some, List, [], ◌∷◌, ◌++◌, ◌==◌, string_eq,
  select, contains, if◌then◌else◌, ◌>>=◌,
}
use kactivitymanagerd.Stats.Tables.{ResourceLink, World, link_eq}

-- KDirNotify::emitFilesAdded and emitFilesRemoved with a URL, and the signals of ResourceLinking
pub data Notice : Type 0 where
  files_added : (url : String) → Notice
  files_removed : (url : String) → Notice
  linked : (link : ResourceLink) → Notice
  unlinked : (link : ResourceLink) → Notice

-- the table, and what was emitted, oldest first
pub record Linking : Type 0 where
  pub links : List ResourceLink
  pub notices : List Notice

-- the checks of validateArguments on the resource: its path, unless it is refused
unfoldable pub validate_resource : World → String → Option String
validate_resource w resource =
    if resource == ""
    then none
    else let path = if starts_with resource "file://" then w.to_local_file resource else resource in
      if starts_with path "/"
      then (if not (w.exists path) then none else some (w.canonical_file_path path))
      else some path

-- the special values of validateArguments for the activity
unfoldable pub special_activity : World → String → String
special_activity w activity =
    if activity == ":current"
    then w.current_activity
    else if activity == ""
    then ":global"
    else activity

unfoldable pub is_known_activity : World → String → Bool
is_known_activity w activity =
    activity == ""
    || activity == ":global"
    || activity == ":any"
    || contains w.list_activities activity

-- the rest of validateArguments, with the resource that it leaves
unfoldable pub validate_names : World → ResourceLink → String → Option ResourceLink
validate_names w a resource =
    let activity = special_activity w a.used_activity in
    if is_known_activity w activity
    then some (record {
      used_activity = activity;
      initiating_agent = if a.initiating_agent == "" then ":global" else a.initiating_agent;
      targetted_resource = resource;
    })
    else none

-- ResourceLinking::validateArguments, with the arguments as it leaves them
unfoldable pub validate_arguments : World → ResourceLink → Option ResourceLink
validate_arguments w a = do
  resource ← validate_resource w a.targetted_resource
  validate_names w a resource

-- `INSERT OR REPLACE INTO ResourceLink`, whose three columns are the primary key
unfoldable pub insert_or_replace : ResourceLink → List ResourceLink → List ResourceLink
insert_or_replace l links = select (λ m. not (m == l)) links ++ l ∷ []

abbrev pub emit : Notice → Linking → Linking
emit n s = record s { notices = s.notices ++ n ∷ [] }

-- the rest of LinkResourceToActivity, after validateArguments
unfoldable pub link_validated : World → ResourceLink → Linking → Linking
link_validated w b s =
    let l = if b.used_activity == ":any" then record b { used_activity = ":global" } else b in
    let inserted = record s { links = insert_or_replace l s.links } in
    let added =
      if l.used_activity == ""
      then inserted
      else let told = emit (files_added (append "activities:/" l.used_activity)) inserted in
        if l.used_activity == w.current_activity
        then emit (files_added "activities:/current") told
        else told in
    emit (linked l) added

unfoldable pub link_if_valid : World → Option ResourceLink → Linking → Linking
link_if_valid w none s = s
link_if_valid w (some b) s = link_validated w b s

-- ResourceLinking::LinkResourceToActivity
unfoldable pub link_resource_to_activity : World → ResourceLink → Linking → Linking
link_resource_to_activity w a s = link_if_valid w (validate_arguments w a) s

abbrev pub favorites : String
favorites = "org.kde.plasma.favorites.applications"

-- the WHERE clauses of UnlinkResourceFromActivity; `b` holds the bound values
unfoldable pub is_unlinked : ResourceLink → ResourceLink → Bool
is_unlinked b l =
    (b.used_activity == ":any" || l.used_activity == b.used_activity)
    && l.initiating_agent == b.initiating_agent
    && (l.targetted_resource == b.targetted_resource
        || l.initiating_agent == favorites
          && l.targetted_resource == append "applications:" b.targetted_resource)

-- the values that UnlinkResourceFromActivity binds
unfoldable pub bound_values : World → ResourceLink → ResourceLink
bound_values w b =
    if b.initiating_agent == favorites
    then record b { targetted_resource = w.remove_text b.targetted_resource "applications:" }
    else b

-- the rest of UnlinkResourceFromActivity, after validateArguments
unfoldable pub unlink_validated : World → ResourceLink → Linking → Linking
unlink_validated w b s =
    let v = bound_values w b in
    let mangled = w.to_base64 v.targetted_resource in
    let deleted = record s { links = select (λ l. not (is_unlinked v l)) s.links } in
    let removed =
      if v.used_activity == ""
      then deleted
      else let told =
          emit (files_removed (append "activities:/" (append v.used_activity (append "/" mangled))))
            deleted in
        if v.used_activity == w.current_activity
        then emit (files_removed (append "activities:/current/" mangled)) told
        else told in
    emit (unlinked v) removed

unfoldable pub unlink_if_valid : World → Option ResourceLink → Linking → Linking
unlink_if_valid w none s = s
unlink_if_valid w (some b) s = unlink_validated w b s

-- ResourceLinking::UnlinkResourceFromActivity
unfoldable pub unlink_resource_from_activity : World → ResourceLink → Linking → Linking
unlink_resource_from_activity w a s = unlink_if_valid w (validate_arguments w a) s

-- the query of IsResourceLinkedToActivity, unless validateArguments refused
unfoldable pub has_link : Option ResourceLink → Linking → Bool
has_link none s = false
has_link (some b) s = contains s.links b

-- ResourceLinking::IsResourceLinkedToActivity
unfoldable pub is_resource_linked_to_activity : World → ResourceLink → Linking → Bool
is_resource_linked_to_activity w a s = has_link (validate_arguments w a) s

-- ResourceLinking::onActivityAdded
abbrev pub on_activity_added : String → Linking → Linking
on_activity_added activity s = emit (files_added "activities:/") s

-- ResourceLinking::onActivityRemoved
abbrev pub on_activity_removed : String → Linking → Linking
on_activity_removed activity s = emit (files_removed (append "activities:/" activity)) s

-- ResourceLinking::onCurrentActivityChanged
abbrev pub on_current_activity_changed : String → Linking → Linking
on_current_activity_changed activity s = emit (files_added "activities:/current") s
