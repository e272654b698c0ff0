-- ===== src/Plugins/Bookmarks.antt =====
-- What the handler of the GTK spy (src/service/plugins/gtk-eventspy) reads in a file of bookmarks.
use mathlib.Core.List.{append_assoc, append-nil}
use kactivitymanagerd.Prelude.{ℕ, String, Option, List, [], ◌∷◌, ◌++◌, ◌≡◌, refl, sym, ap, ◌∙◌, map}
use kactivitymanagerd.Plugins.Spies.{
  App, Bookmark, Element, bookmark, application, mime_type, other, Sax, start, end, Handler,
  new_handler, read_application, start_element, end_element, handle,
}

-- one bookmark of a file: the attributes, and the commands and times of the applications
pub record Item : Type 0 where
  pub href : String
  pub added : String
  pub modified : String
  pub visited : String
  pub type : String
  pub uses : List (String × String)

unfoldable pub use_elements : List (String × String) → List Sax
use_elements [] = []
use_elements ((exec, modified) ∷ uses) =
    start (application exec modified) ∷ end (application exec modified) ∷ use_elements uses

abbrev pub item_start : Item → Element
item_start i = bookmark i.href i.added i.modified i.visited

abbrev pub closing : Item → List Sax
closing i =
    end (other "bookmark:applications")
    ∷ end (other "metadata")
    ∷ end (other "info")
    ∷ end (item_start i)
    ∷ []

-- the elements of an XBEL file of bookmarks, in order
unfoldable pub item_elements : Item → List Sax
item_elements i =
    start (item_start i)
    ∷ start (other "info")
    ∷ start (other "metadata")
    ∷ start (mime_type i.type)
    ∷ end (mime_type i.type)
    ∷ start (other "bookmark:applications")
    ∷ (use_elements i.uses ++ closing i)

unfoldable pub elements : List Item → List Sax
elements [] = []
elements (i ∷ items) = item_elements i ++ elements items

module _ {U : Type 0} (to_url : String → U) (from_string : String → ℕ)
    (services : String → Option String) where
  unfoldable pub applications_of : List (String × String) → List App
  applications_of [] = []
  applications_of ((exec, modified) ∷ uses) =
      read_application from_string services exec modified ∷ applications_of uses

  -- the bookmark that an item stands for
  abbrev pub bookmark_of : Item → Bookmark U
  bookmark_of i = record {
    href = to_url i.href;
    added = from_string i.added;
    modified = from_string i.modified;
    visited = from_string i.visited;
    mimetype = i.type;
    applications = applications_of i.uses;
  }

  handle-append :
      (xs ys : List Sax) (h : Handler U)
      → handle to_url from_string services (xs ++ ys) h
        ≡ handle to_url from_string services ys (handle to_url from_string services xs h)
  unfolding handle
  handle-append [] ys h = refl
  handle-append (start e ∷ xs) ys h =
      handle-append xs ys (start_element to_url from_string services e h)
  handle-append (end e ∷ xs) ys h =
      handle-append xs ys (end_element to_url from_string services e h)

  abbrev with_applications : List App → Handler U → Handler U
  with_applications apps h = record h { current = record h.current { applications = apps } }

  handle-uses :
      (uses : List (String × String)) (h : Handler U)
      → handle to_url from_string services (use_elements uses) h
        ≡ with_applications (h.current.applications ++ applications_of uses) h
  unfolding handle use_elements applications_of start_element end_element
  handle-uses [] h = ap (λ apps. with_applications apps h) (sym (append-nil h.current.applications))
  handle-uses ((exec, modified) ∷ uses) h =
      let app = read_application from_string services exec modified in
      handle-uses uses (with_applications (h.current.applications ++ app ∷ []) h)
      ∙ ap (λ apps. with_applications apps h)
          (append_assoc h.current.applications (app ∷ []) (applications_of uses))

  handle-item :
      (i : Item) (h : Handler U)
      → (handle to_url from_string services (item_elements i) h).marks
        ≡ h.marks ++ bookmark_of i ∷ []
  unfolding handle item_elements start_element end_element
  handle-item i h =
      let h0 =
        start_element to_url from_string services (mime_type i.type)
          (start_element to_url from_string services (item_start i) h) in
      ap (λ (x : Handler U). x.marks)
        (handle-append (use_elements i.uses) (closing i) h0
          ∙ ap (λ x. handle to_url from_string services (closing i) x) (handle-uses i.uses h0))

  handle-items :
      (items : List Item) (h : Handler U)
      → (handle to_url from_string services (elements items) h).marks
        ≡ h.marks ++ map bookmark_of items
  unfolding elements handle
  handle-items [] h = sym (append-nil h.marks)
  handle-items (i ∷ items) h =
      let h1 = handle to_url from_string services (item_elements i) h in
      ap (λ (x : Handler U). x.marks) (handle-append (item_elements i) (elements items) h)
      ∙ handle-items items h1
      ∙ ap (λ marks. marks ++ map bookmark_of items) (handle-item i h)
      ∙ append_assoc h.marks (bookmark_of i ∷ []) (map bookmark_of items)

  -- Reading the elements of a list of XBEL bookmarks gives the bookmarks in the same order, each with
  -- the URL that QUrl reads in its own address, and its own times, type and
  -- applications.
  pub marks-elements :
      (items : List Item) (no_url : U)
      → (handle to_url from_string services (elements items) (new_handler no_url)).marks
        ≡ map bookmark_of items
  marks-elements items no_url = handle-items items (new_handler no_url)
