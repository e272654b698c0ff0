-- ===== src/Plugins/Spies.antt =====
-- The event spies (src/service/plugins/eventspy and gtk-eventspy). Times are numbers; what the files
-- hold, what QDateTime and QUrl make of a text, and what KService answers are arguments. URLs are of
-- any type `U`.
use Prim.Native.Char.{code}
use kactivitymanagerd.Prelude.{
  ℕ, String, Bool, false, ◌&&◌, ◌||◌, ltb, Option, none, some, ◌>>=◌, List, [], ◌∷◌, ◌++◌, ◌==◌,
  string_eq, nat_eq, map, select, if◌then◌else◌,
}

-- the calls that the spies post to the resources module
pub data Call : Type 0 where
  register_resource_event : (application : String) (window : ℕ) (uri : String) (event : ℕ) → Call
  registered_resource_mimetype : (uri mimetype : String) → Call

-- what KDesktopFile reads in a recent document, and when the file was modified
pub record RecentDocument : Type 0 where
  pub url : String
  pub opened_with : String
  pub last_modified : ℕ

-- EventSpyPlugin::addDocument; `to_url` is QUrl(…) of a text, and `to_local_file` is QUrl::toLocalFile
abbrev pub add_recent : {U : Type 0} → (String → U) → (U → String) → RecentDocument → Call
add_recent to_url to_local_file d =
    register_resource_event d.opened_with 0 (to_local_file (to_url d.url)) 0

-- EventSpyPlugin::directoryUpdated: the new m_lastUpdate and the calls
unfoldable pub directory_updated :
    {U : Type 0} → (String → U) → (U → String) → ℕ → List RecentDocument → ℕ → ℕ × List Call
directory_updated to_url to_local_file now documents last_update = (
  now,
  map (add_recent to_url to_local_file) (select (λ d. ltb last_update d.last_modified) documents),
)

-- Application of GtkEventSpy.cpp
pub record App : Type 0 where
  pub name : String
  pub modified : ℕ

pub record Bookmark (U : Type 0) : Type 0 where
  pub href : U
  pub added : ℕ
  pub modified : ℕ
  pub visited : ℕ
  pub mimetype : String
  pub applications : List App

-- the loop of Bookmark::latestApplication
unfoldable pub latest : App → List App → App
latest current [] = current
latest current (app ∷ rest) =
    if ltb current.modified app.modified then latest app rest else latest current rest

-- Bookmark::latestApplication; `applications.first()` needs an application
unfoldable pub latest_application : List App → Option String
latest_application [] = none
latest_application (app ∷ rest) = some (latest app (app ∷ rest)).name

unfoldable pub starts_quoted : String → Bool
starts_quoted String.[] = false
starts_quoted (String.◌∷◌ c s) = code c == 39

unfoldable pub ends_quoted : String → Bool
ends_quoted String.[] = false
ends_quoted (String.◌∷◌ c String.[]) = code c == 39
ends_quoted (String.◌∷◌ c (String.◌∷◌ d s)) = ends_quoted (String.◌∷◌ d s)

unfoldable pub tail : String → String
tail String.[] = ""
tail (String.◌∷◌ c s) = s

unfoldable pub drop_last : String → String
drop_last String.[] = ""
drop_last (String.◌∷◌ c String.[]) = ""
drop_last (String.◌∷◌ c (String.◌∷◌ d s)) = String.◌∷◌ c (drop_last (String.◌∷◌ d s))

unfoldable pub before_space : String → String
before_space String.[] = ""
before_space (String.◌∷◌ c s) = if code c == 32 then "" else String.◌∷◌ c (before_space s)

-- the quotes around a command go
unfoldable pub unquote : String → String
unquote exec = if starts_quoted exec && ends_quoted exec then drop_last (tail exec) else exec

-- the name of an application, from the first service of KServiceTypeTrader for its command
unfoldable pub service_name : Option String → String → String
service_name (some service) exec = service
service_name none exec = before_space exec

-- the elements of a document whose start the handler looks at, with their attributes, and the others
pub data Element : Type 0 where
  bookmark : (href added modified visited : String) → Element
  application : (exec modified : String) → Element
  mime_type : (type : String) → Element
  other : (name : String) → Element

pub data Sax : Type 0 where
  start end : Element → Sax

-- BookmarkHandler
pub record Handler (U : Type 0) : Type 0 where
  pub marks : List (Bookmark U)
  pub current : Bookmark U

-- `no_url` is QUrl()
abbrev pub new_handler : {U : Type 0} → U → Handler U
new_handler no_url = record {
  marks = [];
  current = record {
    href = no_url;
    added = 0;
    modified = 0;
    visited = 0;
    mimetype = "";
    applications = [];
  };
}

module _ (from_string : String → ℕ) (services : String → Option String) where
  abbrev pub read_application : String → String → App
  read_application exec modified = record {
    name = service_name (services (unquote exec)) (unquote exec);
    modified = from_string modified;
  }

module _ {U : Type 0} (to_url : String → U) (from_string : String → ℕ)
    (services : String → Option String) where
  -- BookmarkHandler::startElement
  unfoldable pub start_element : Element → Handler U → Handler U
  start_element (bookmark href added modified visited) h = record h {
    current = record {
      href = to_url href;
      added = from_string added;
      modified = from_string modified;
      visited = from_string visited;
      mimetype = "";
      applications = [];
    };
  }
  start_element (application exec modified) h = record h {
    current = record h.current {
      applications =
          h.current.applications ++ read_application from_string services exec modified ∷ [];
    };
  }
  start_element (mime_type type) h = record h { current = record h.current { mimetype = type } }
  start_element (other name) h = h

  -- BookmarkHandler::endElement
  unfoldable pub end_element : Element → Handler U → Handler U
  end_element (bookmark href added modified visited) h = record h {
    marks = h.marks ++ h.current ∷ [];
  }
  end_element (application exec modified) h = h
  end_element (mime_type type) h = h
  end_element (other name) h = h

  -- QXmlSimpleReader::parse, on the document's elements in order
  unfoldable pub handle : List Sax → Handler U → Handler U
  handle [] h = h
  handle (start e ∷ rest) h = handle rest (start_element e h)
  handle (end e ∷ rest) h = handle rest (end_element e h)

-- GtkEventSpyPlugin::addDocument; `to_text` is QUrl::toString
abbrev pub add_document : {U : Type 0} → (U → String) → U → String → String → List Call
add_document to_text url opener mimetype =
    register_resource_event opener 0 (to_text url) 0
    ∷ registered_resource_mimetype (to_text url) mimetype
    ∷ []

unfoldable pub is_new : {U : Type 0} → ℕ → Bookmark U → Bool
is_new last_update mark =
    ltb last_update mark.added || ltb last_update mark.modified || ltb last_update mark.visited

-- a bookmark's calls, before those of the later ones
unfoldable pub add_mark :
    {U : Type 0} → (U → String) → Bookmark U → Option (List Call) → Option (List Call)
add_mark to_text mark rest = do
  opener ← latest_application mark.applications
  calls ← rest
  some (add_document to_text mark.href opener mark.mimetype ++ calls)

-- the loop of GtkEventSpyPlugin::fileUpdated; none where `first` has nothing to return
unfoldable pub add_marks : {U : Type 0} → (U → String) → ℕ → List (Bookmark U) → Option (List Call)
add_marks to_text last_update [] = some []
add_marks to_text last_update (mark ∷ marks) =
    let rest = add_marks to_text last_update marks in
    if is_new last_update mark then add_mark to_text mark rest else rest

-- what comes of reading the file
pub data Reading : Type 0 where
  unreadable unparsable : Reading
  parsed : List Sax → Reading

-- GtkEventSpyPlugin::fileUpdated: the new m_lastUpdate and the calls
unfoldable pub file_updated :
    {U : Type 0}
    → (String → U)
    → (U → String)
    → U
    → (String → ℕ)
    → (String → Option String)
    → ℕ
    → Reading
    → ℕ
    → Option (ℕ × List Call)
file_updated to_url to_text no_url from_string services now unreadable last_update =
    some (last_update, [])
file_updated to_url to_text no_url from_string services now unparsable last_update =
    some (last_update, [])
file_updated to_url to_text no_url from_string services now (parsed document) last_update = do
  calls ←
      add_marks to_text last_update
        (handle to_url from_string services document (new_handler no_url)).marks
  some (now, calls)
