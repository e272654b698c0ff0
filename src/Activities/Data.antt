-- ===== src/Activities/Data.antt =====
-- The state of Activities::Private, the signals of Activities, and what they post to the event loop.
use Prim.Native.Nat.{bit_and}
use kactivitymanagerd.Prelude.{
  ℕ, String, Bool, true, Option, List, [], ◌∷◌, ◌≡◌, ◌↔◌, arith, Eq, ◌==◌, nat_eq, string_eq,
  nat_beq, Hash, lookup, insert, remove, or_default, if◌then◌else◌,
}

-- Activities::State
pub data State : Type 0 where
  invalid running starting stopped stopping : State

-- the values of the enumerators
abbrev pub code : State → ℕ
code invalid = 0
code running = 2
code starting = 3
code stopped = 4
code stopping = 5

pub code-injective : (s t : State) → (nat_beq (code s) (code t) ≡ true) ↔ (s ≡ t)
code-injective s t = (λ h. ground arith, λ h. ground arith)

instance abbrev pub state_eq : Eq State
state_eq = record { beq = λ s t. nat_beq (code s) (code t); beq_iff = code-injective }

-- `state & 4`, which is set in Stopped and Stopping
abbrev pub stopped_bit : State → ℕ
stopped_bit s = bit_and (code s) 4

pub record ActivityInfo : Type 0 where
  pub id : String
  pub name : String
  pub description : String
  pub icon : String
  pub state : State

-- kactivitymanagerdrc: the groups `activities`, `activities-descriptions` and `activities-icons`,
-- and the keys of the group `main`
pub record Config : Type 0 where
  pub names : Hash String String
  pub descriptions : Hash String String
  pub icons : Hash String String
  pub running_activities : Option (List String)
  pub stopped_activities : Option (List String)
  pub last_activity : Option String

-- the three uses of CREATE_GETTER_AND_SETTER
pub data What : Type 0 where
  name description icon : What

-- activityNameConfig, activityDescriptionConfig and activityIconConfig
abbrev pub group : What → Config → Hash String String
group name c = c.names
group description c = c.descriptions
group icon c = c.icons

abbrev pub write_entry : What → String → String → Config → Config
write_entry name a v c = record c { names = insert a v c.names }
write_entry description a v c = record c { descriptions = insert a v c.descriptions }
write_entry icon a v c = record c { icons = insert a v c.icons }

-- the three `deleteEntry` calls of removeActivity
abbrev pub delete_entries : String → Config → Config
delete_entries a c = record c {
  names = remove a c.names;
  descriptions = remove a c.descriptions;
  icons = remove a c.icons;
}

-- the signals of Activities
pub data Signal : Type 0 where
  current_activity_changed activity_added activity_started activity_stopped : String → Signal
  activity_removed activity_changed : String → Signal
  attribute_changed : What → String → String → Signal
  activity_state_changed : String → State → Signal

-- what is invoked by a queued connection
pub data Posted : Type 0 where
  start_sync_timer stop_sync_timer config_sync update_sorted : Posted
  add_activity removed_signal : String → Posted

-- `saved` is the configuration on the disk; `session_calls` are the calls of KSMServer, with true
-- for startActivitySession. `posted`, `emitted` and `session_calls` have the newest entry first.
pub record Activities : Type 0 where
  pub activities : Hash String State
  pub sorted_activities : List ActivityInfo
  pub current_activity : String
  pub config : Config
  pub saved : Config
  pub timer_active : Bool
  pub posted : List Posted
  pub emitted : List Signal
  pub session_calls : List (String × Bool)

abbrev pub emit : Signal → Activities → Activities
emit signal s = record s { emitted = signal ∷ s.emitted }

abbrev pub post : Posted → Activities → Activities
post p s = record s { posted = p ∷ s.posted }

-- QHash::keys(value)
unfoldable pub keys_with : State → Hash String State → List String
keys_with st [] = []
keys_with st ((a, v) ∷ m) = if v == st then a ∷ keys_with st m else keys_with st m

-- activityName, activityDescription and activityIcon of Activities::Private
unfoldable pub read_entry : What → String → Activities → String
read_entry what a s = or_default (lookup a (group what s.config)) ""

-- Activities::ActivityState
unfoldable pub activity_state : String → Activities → State
activity_state a s = or_default (lookup a s.activities) invalid
