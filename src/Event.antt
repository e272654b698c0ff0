-- ===== src/Event.antt =====
-- Event of src/service/Event.h and Event.cpp. A QDateTime is the number of its milliseconds.
use kactivitymanagerd.Prelude.{
  ℕ, String, Bool, true, ◌&&◌, ◌≡◌, ◌↔◌, arith, Eq, ◌==◌, nat_eq, string_eq, ==_iff, if◌then◌else◌,
}

-- the values of Event::Type and Event::UserEventType
abbrev pub accessed : ℕ
accessed = 0

abbrev pub opened : ℕ
opened = 1

abbrev pub modified : ℕ
modified = 2

abbrev pub closed : ℕ
closed = 3

abbrev pub focussed_in : ℕ
focussed_in = 4

abbrev pub focussed_out : ℕ
focussed_out = 5

abbrev pub last_event_type : ℕ
last_event_type = 5

abbrev pub user_event_type : ℕ
user_event_type = 32

pub record Event : Type 0 where
  pub application : String
  pub wid : ℕ
  pub uri : String
  pub kind : ℕ
  pub timestamp : ℕ

-- Event::deriveWithType
abbrev pub derive_with_type : Event → ℕ → Event
derive_with_type e t = record e { kind = t }

-- Event::operator==
abbrev pub event_beq : Event → Event → Bool
event_beq e f =
    e.application == f.application
    && e.wid == f.wid
    && e.uri == f.uri
    && e.kind == f.kind
    && e.timestamp == f.timestamp

pub event_beq_iff : (e f : Event) → (event_beq e f ≡ true) ↔ (e ≡ f)
event_beq_iff e f = (
  λ h. ground (arith, ==_iff e.application f.application, ==_iff e.uri f.uri),
  λ h. ground (arith, ==_iff e.application f.application, ==_iff e.uri f.uri),
)

instance abbrev pub event_eq : Eq Event
event_eq = record { beq = event_beq; beq_iff = event_beq_iff }

-- Event::typeName
unfoldable pub type_name : ℕ → String
type_name kind =
    if kind == accessed
    then "Accessed"
    else if kind == opened
    then "Opened"
    else if kind == modified
    then "Modified"
    else if kind == closed
    then "Closed"
    else if kind == focussed_in
    then "FocussedIn"
    else if kind == focussed_out
    then "FocussedOut"
    else "Other"
