-- ===== src/Stats/Linking.antt =====
-- What links and unlinks do to the links that are asked for.
use Prim.Native.String.{◌++◌ as append}
use kactivitymanagerd.Prelude.{
  String, Bool, true, false, not, ◌&&◌, ◌||◌, Option, none, some, List, [], ◌∷◌, ◌≡◌, ◌≢◌, ◌⊎◌,
  ne_of_beq, refl, ap, ◌∙◌, arith, ◌==◌, ==_iff, string_eq, select, contains, contains-append,
  if◌then◌else◌,
}
use kactivitymanagerd.Stats.Tables.{ResourceLink, World, link_eq}
use kactivitymanagerd.Stats.Links.{
  Linking, insert_or_replace, link_validated, link_resource_to_activity, favorites, is_unlinked,
  bound_values, unlink_validated, unlink_resource_from_activity, is_resource_linked_to_activity,
  validate_arguments, has_link, link_if_valid, unlink_if_valid,
}

-- the row that LinkResourceToActivity stores
abbrev pub stored : ResourceLink → ResourceLink
stored b = if b.used_activity == ":any" then record b { used_activity = ":global" } else b

pub links-link_validated :
    (w : World) (b : ResourceLink) (s : Linking)
    → (link_validated w b s).links ≡ insert_or_replace (stored b) s.links
unfolding link_validated
links-link_validated w b s = ground arith

pub links-unlink_validated :
    (w : World) (b : ResourceLink) (s : Linking)
    → (unlink_validated w b s).links ≡ select (λ l. not (is_unlinked (bound_values w b) l)) s.links
unfolding unlink_validated
links-unlink_validated w b s = ground arith

pub contains-select :
    (p : ResourceLink → Bool) (xs : List ResourceLink) (l : ResourceLink)
    → contains (select p xs) l ≡ (contains xs l && p l)
unfolding contains select
contains-select p [] l = refl
contains-select p (x ∷ xs) l = ground (arith, ==_iff x l, contains-select p xs l)

contains-insert_or_replace :
    (b : ResourceLink) (xs : List ResourceLink) (l : ResourceLink)
    → contains (insert_or_replace b xs) l ≡ (contains xs l || b == l)
unfolding insert_or_replace contains
contains-insert_or_replace b xs l = ground (
  arith,
  contains-append (select (λ m. not (m == b)) xs) (b ∷ []) l,
  contains-select (λ m. not (m == b)) xs l,
  ==_iff l b,
  ==_iff b l,
)

-- whether validateArguments leaves the row
abbrev pub refers : Option ResourceLink → ResourceLink → Bool
refers none b = false
refers (some c) b = b == c

has_link-link_validated :
    (w : World) (b : ResourceLink) (s : Linking) (v : Option ResourceLink)
    → has_link v (link_validated w b s) ≡ (has_link v s || refers v (stored b))
unfolding has_link
has_link-link_validated w b s none = refl
has_link-link_validated w b s (some c) =
    rw (links-link_validated w b s) (contains-insert_or_replace (stored b) s.links c)

-- When the arguments of LinkResourceToActivity are valid, with `b` the row that they stand for
-- (":any" is stored as ":global"), then afterwards IsResourceLinkedToActivity answers true for
-- exactly the arguments that it answered true for before, and those that stand for this row.
pub link-is_linked :
    (w : World) (a b c : ResourceLink) (s : Linking)
    → validate_arguments w a ≡ some b
    → is_resource_linked_to_activity w c (link_resource_to_activity w a s)
      ≡ (is_resource_linked_to_activity w c s || refers (validate_arguments w c) (stored b))
unfolding link_resource_to_activity link_if_valid is_resource_linked_to_activity
link-is_linked w a b c s va = rw va (has_link-link_validated w b s (validate_arguments w c))

-- the effect of an unlink on an answer
abbrev pub keeps : Option ResourceLink → ResourceLink → Bool
keeps none v = false
keeps (some c) v = not (is_unlinked v c)

has_link-unlink_validated :
    (w : World) (b : ResourceLink) (s : Linking) (v : Option ResourceLink)
    → has_link v (unlink_validated w b s) ≡ (has_link v s && keeps v (bound_values w b))
unfolding has_link
has_link-unlink_validated w b s none = refl
has_link-unlink_validated w b s (some c) =
    rw (links-unlink_validated w b s)
      (contains-select (λ l. not (is_unlinked (bound_values w b) l)) s.links c)

-- the resource of a link of the favorites is found with or without its prefix
abbrev pub IsStripped : World → ResourceLink → Type 0
IsStripped w b =
    let stripped = w.remove_text b.targetted_resource "applications:" in
    (b.initiating_agent ≢ favorites)
    ⊎ ((b.targetted_resource ≡ stripped) ⊎ (b.targetted_resource ≡ append "applications:" stripped))

is_unlinked-bound_values :
    (w : World) (b c : ResourceLink)
    → IsStripped w b
    → c.initiating_agent ≡ b.initiating_agent
    → c.targetted_resource ≡ b.targetted_resource
    → (c.used_activity ≡ b.used_activity) ⊎ (b.used_activity ≡ ":any")
    → is_unlinked (bound_values w b) c ≡ true
unfolding is_unlinked bound_values
is_unlinked-bound_values w b c i ea er eu =
    let stripped = w.remove_text b.targetted_resource "applications:" in
    ground (
      arith,
      ==_iff b.initiating_agent favorites,
      ==_iff c.initiating_agent favorites,
      ==_iff c.initiating_agent b.initiating_agent,
      ==_iff c.used_activity b.used_activity,
      ==_iff b.used_activity ":any",
      ==_iff c.targetted_resource b.targetted_resource,
      ==_iff c.targetted_resource stripped,
      ==_iff c.targetted_resource (append "applications:" stripped),
    )

and_false : (b : Bool) → (b && false) ≡ false
and_false b = ground arith

-- When the arguments of UnlinkResourceFromActivity are valid, IsResourceLinkedToActivity then
-- answers false for any arguments that stand for the same agent and resource, and for the same
-- activity or, when the link is removed from ":any", for any activity; for the agent of the
-- favorites, provided that removing "applications:" from the resource takes away nothing or one
-- such prefix.
pub unlink-is_linked :
    (w : World) (a b c d : ResourceLink) (s : Linking)
    → validate_arguments w a ≡ some b
    → IsStripped w b
    → validate_arguments w c ≡ some d
    → d.initiating_agent ≡ b.initiating_agent
    → d.targetted_resource ≡ b.targetted_resource
    → (d.used_activity ≡ b.used_activity) ⊎ (b.used_activity ≡ ":any")
    → is_resource_linked_to_activity w c (unlink_resource_from_activity w a s) ≡ false
unfolding unlink_resource_from_activity unlink_if_valid is_resource_linked_to_activity
unlink-is_linked w a b c d s va i vc ea er eu =
    rw (va, vc, has_link-unlink_validated w b s (some d), is_unlinked-bound_values w b d i ea er eu)
      (and_false (has_link (some d) s))

-- the calls that write the table
pub data Call : Type 0 where
  link : (a : ResourceLink) → Call
  unlink : (a : ResourceLink) → Call

pub perform : World → Call → Linking → Linking
perform w (link a) s = link_resource_to_activity w a s
perform w (unlink a) s = unlink_resource_from_activity w a s

pub perform_all : List (World × Call) → Linking → Linking
perform_all [] s = s
perform_all ((w, c) ∷ cs) s = perform_all cs (perform w c s)

-- no row has the activity ":any"
unfoldable pub HasNoAny : Linking → Type 0
HasNoAny s = (l : ResourceLink) → l.used_activity ≡ ":any" → contains s.links l ≡ false

stored_not_any : (b : ResourceLink) → (stored b).used_activity ≢ ":any"
stored_not_any b e =
    ground (arith, ==_iff b.used_activity ":any", ne_of_beq {A = String} ":global" ":any" refl)

link_validated-HasNoAny :
    (w : World) (b : ResourceLink) (s : Linking) → HasNoAny s → HasNoAny (link_validated w b s)
unfolding HasNoAny
link_validated-HasNoAny w b s h l e =
    rw (links-link_validated w b s, contains-insert_or_replace (stored b) s.links l, h l e)
      (ground (
        arith,
        stored_not_any b,
        ==_iff (stored b) l,
        λ (p : stored b ≡ l). ap (λ r. r.used_activity) p ∙ e,
      ))

unlink_validated-HasNoAny :
    (w : World) (b : ResourceLink) (s : Linking) → HasNoAny s → HasNoAny (unlink_validated w b s)
unfolding HasNoAny
unlink_validated-HasNoAny w b s h l e =
    rw
      (
        links-unlink_validated w b s,
        contains-select (λ m. not (is_unlinked (bound_values w b) m)) s.links l,
        h l e,
      )
      refl

link_if_valid-HasNoAny :
    (w : World) (v : Option ResourceLink) (s : Linking)
    → HasNoAny s
    → HasNoAny (link_if_valid w v s)
unfolding link_if_valid
link_if_valid-HasNoAny w none s h = h
link_if_valid-HasNoAny w (some b) s h = link_validated-HasNoAny w b s h

unlink_if_valid-HasNoAny :
    (w : World) (v : Option ResourceLink) (s : Linking)
    → HasNoAny s
    → HasNoAny (unlink_if_valid w v s)
unfolding unlink_if_valid
unlink_if_valid-HasNoAny w none s h = h
unlink_if_valid-HasNoAny w (some b) s h = unlink_validated-HasNoAny w b s h

perform-HasNoAny : (w : World) (c : Call) (s : Linking) → HasNoAny s → HasNoAny (perform w c s)
unfolding perform link_resource_to_activity unlink_resource_from_activity
perform-HasNoAny w (link a) s h = link_if_valid-HasNoAny w (validate_arguments w a) s h
perform-HasNoAny w (unlink a) s h = unlink_if_valid-HasNoAny w (validate_arguments w a) s h

perform_all-HasNoAny :
    (cs : List (World × Call)) (s : Linking) → HasNoAny s → HasNoAny (perform_all cs s)
unfolding perform_all
perform_all-HasNoAny [] s h = h
perform_all-HasNoAny ((w, c) ∷ cs) s h =
    perform_all-HasNoAny cs (perform w c s) (perform-HasNoAny w c s h)

abbrev pub no_links : Linking
no_links = record { links = []; notices = [] }

no_links-HasNoAny : HasNoAny no_links
unfolding HasNoAny contains
no_links-HasNoAny l e = refl

has_link-any :
    (v : Option ResourceLink) (b : ResourceLink) (s : Linking)
    → HasNoAny s
    → v ≡ some b
    → b.used_activity ≡ ":any"
    → has_link v s ≡ false
unfolding has_link HasNoAny
has_link-any v b s h e u = rw e (h b u)

-- IsResourceLinkedToActivity answers false for valid arguments with the activity ":any", whatever
-- links were made or removed since the table was empty, although LinkResourceToActivity and
-- UnlinkResourceFromActivity take that activity.
pub any_never_linked :
    (cs : List (World × Call)) (w : World) (a b : ResourceLink)
    → validate_arguments w a ≡ some b
    → b.used_activity ≡ ":any"
    → is_resource_linked_to_activity w a (perform_all cs no_links) ≡ false
unfolding is_resource_linked_to_activity
any_never_linked cs w a b v u =
    has_link-any (validate_arguments w a) b (perform_all cs no_links)
      (perform_all-HasNoAny cs no_links no_links-HasNoAny) v u
