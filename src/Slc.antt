-- ===== src/Slc.antt =====
-- SlcPlugin of src/service/plugins/slc/SlcPlugin.cpp: the resource in focus, as told to clients.
use text.Mathlib.Text.{starts_with}
use kactivitymanagerd.Prelude.{
  String, true, not, List, [], ◌∷◌, ◌≡◌, ◌≢◌, refl, arith, ◌==◌, nat_eq, string_eq, Hash, lookup,
  insert, remove, or_default, if◌then◌else◌, lookup-insert, lookup-remove, ==_iff, ==_refl,
}
use kactivitymanagerd.Event.{Event, closed, focussed_in, focussed_out}

-- SlcPlugin::ResourceInfo
pub record ResourceInfo : Type 0 where
  pub title : String
  pub mimetype : String

abbrev pub no_info : ResourceInfo
no_info = record { title = ""; mimetype = "" }

-- `focus_changed` holds the emitted focusChanged (uri, mimetype, title), newest first.
pub record Slc : Type 0 where
  pub focussed_resource : String
  pub resources : Hash String ResourceInfo
  pub focus_changed : List (String × String × String)

abbrev pub init : Slc
init = record { focussed_resource = ""; resources = []; focus_changed = [] }

-- `m_resources[uri]`
abbrev pub info_of : String → Slc → ResourceInfo
info_of uri s = or_default (lookup uri s.resources) no_info

-- SlcPlugin::focussedResourceMimetype
unfoldable pub focussed_resource_mimetype : Slc → String
focussed_resource_mimetype s = (info_of s.focussed_resource s).mimetype

-- SlcPlugin::focussedResourceTitle
unfoldable pub focussed_resource_title : Slc → String
focussed_resource_title s = (info_of s.focussed_resource s).title

unfoldable pub clear_focus : Slc → Slc
clear_focus s = record s { focussed_resource = ""; focus_changed = ("", "", "") ∷ s.focus_changed }

-- the inner branch of FocussedIn; reading `m_resources[uri]` makes an entry
unfoldable pub focus_on : String → Slc → Slc
focus_on uri s =
    if not (s.focussed_resource == uri)
    then record s {
      focussed_resource = uri;
      resources = insert uri (info_of uri s) s.resources;
      focus_changed = (uri, (info_of uri s).mimetype, (info_of uri s).title) ∷ s.focus_changed;
    }
    else s

-- SlcPlugin::registeredResourceEvent
unfoldable pub registered_resource_event : Event → Slc → Slc
unfolding clear_focus focus_on
registered_resource_event e s =
    if e.kind == focussed_in
    then (if not (starts_with e.uri "about") then focus_on e.uri s else clear_focus s)
    else if e.kind == focussed_out
    then (if s.focussed_resource == e.uri then clear_focus s else s)
    else if e.kind == closed
    then record s { resources = remove e.uri s.resources }
    else s

-- SlcPlugin::registeredResourceMimetype
unfoldable pub registered_resource_mimetype : String → String → Slc → Slc
registered_resource_mimetype uri m s = record s {
  resources = insert uri (record (info_of uri s) { mimetype = m }) s.resources;
}

-- SlcPlugin::registeredResourceTitle
unfoldable pub registered_resource_title : String → String → Slc → Slc
registered_resource_title uri t s = record s {
  resources = insert uri (record (info_of uri s) { title = t }) s.resources;
}

-- The signals of Resources that the plugin answers.
pub data Notice : Type 0 where
  event : Event → Notice
  mimetype title : String → String → Notice

unfoldable pub handle : Notice → Slc → Slc
unfolding registered_resource_event registered_resource_mimetype registered_resource_title
handle (event e) s = registered_resource_event e s
handle (mimetype uri m) s = registered_resource_mimetype uri m s
handle (title uri t) s = registered_resource_title uri t s

unfoldable pub handle_all : List Notice → Slc → Slc
handle_all [] s = s
handle_all (n ∷ ns) s = handle_all ns (handle n s)

-- the resource of the newest focusChanged
abbrev pub announced : List (String × String × String) → String
announced [] = ""
announced (f ∷ rest) = f.0

handle-announced :
    (n : Notice) (s : Slc)
    → announced s.focus_changed ≡ s.focussed_resource
    → announced (handle n s).focus_changed ≡ (handle n s).focussed_resource
unfolding handle
handle-announced (event e) s h = ground arith
handle-announced (mimetype uri m) s h = h
handle-announced (title uri t) s h = h

handle_all-announced :
    (ns : List Notice) (s : Slc)
    → announced s.focus_changed ≡ s.focussed_resource
    → announced (handle_all ns s).focus_changed ≡ (handle_all ns s).focussed_resource
unfolding handle_all
handle_all-announced [] s h = h
handle_all-announced (n ∷ ns) s h = handle_all-announced ns (handle n s) (handle-announced n s h)

-- After any notices, the focused resource is the one that the newest focusChanged told the clients,
-- and no resource if there was none.
pub focus_announced :
    (ns : List Notice)
    → announced (handle_all ns init).focus_changed ≡ (handle_all ns init).focussed_resource
focus_announced ns = handle_all-announced ns init refl

-- The notice leaves what is known of `uri` alone.
abbrev pub Spares : String → Notice → Type 0
Spares uri (event e) = (e.kind == closed) ≡ true → e.uri ≢ uri
Spares uri (mimetype u m) = u ≢ uri
Spares uri (title u t) = Unit {0}

abbrev pub AllSpare : String → List Notice → Type 0
AllSpare uri [] = Unit {0}
AllSpare uri (n ∷ ns) = Spares uri n × AllSpare uri ns

handle-mimetype :
    (uri : String) (n : Notice) (s : Slc)
    → Spares uri n
    → (info_of uri (handle n s)).mimetype ≡ (info_of uri s).mimetype
unfolding handle
handle-mimetype uri (event e) s h = ground (
  arith,
  lookup-insert e.uri uri (info_of e.uri s) s.resources,
  lookup-remove e.uri uri s.resources,
  ==_iff e.uri uri,
)
handle-mimetype uri (mimetype u m) s h =
    ground
      (arith, lookup-insert u uri (record (info_of u s) { mimetype = m }) s.resources, ==_iff u uri)
handle-mimetype uri (title u t) s h =
    ground
      (arith, lookup-insert u uri (record (info_of u s) { title = t }) s.resources, ==_iff u uri)

handle_all-mimetype :
    (uri : String) (ns : List Notice) (s : Slc)
    → AllSpare uri ns
    → (info_of uri (handle_all ns s)).mimetype ≡ (info_of uri s).mimetype
unfolding handle_all
handle_all-mimetype uri [] s h = refl
handle_all-mimetype uri (n ∷ ns) s h =
    rw (handle_all-mimetype uri ns (handle n s) h.1) (handle-mimetype uri n s h.0)

-- The mimetype that was registered for a resource is what clients read whenever that resource is in
-- focus, until the resource is closed or gets another mimetype.
pub mimetype_kept :
    (uri m : String) (ns : List Notice) (s : Slc)
    → AllSpare uri ns
    → (handle_all ns (handle (mimetype uri m) s)).focussed_resource ≡ uri
    → focussed_resource_mimetype (handle_all ns (handle (mimetype uri m) s)) ≡ m
unfolding handle focussed_resource_mimetype
mimetype_kept uri m ns s h f =
    rw (f, handle_all-mimetype uri ns (handle (mimetype uri m) s) h)
      (ground (
        arith,
        lookup-insert uri uri (record (info_of uri s) { mimetype = m }) s.resources,
        ==_refl uri,
      ))
