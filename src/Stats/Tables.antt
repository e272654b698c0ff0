-- ===== src/Stats/Tables.antt =====
-- The tables of the resources database (src/common/database/schema/ResourcesDatabaseSchema.cpp) as
-- lists of rows, and what the plugin asks of other code: QUrl, QFileInfo, and the Activities object.
use kactivitymanagerd.Prelude.{
  ℕ, String, Bool, true, ◌&&◌, Option, List, ◌≡◌, ◌↔◌, arith, Eq, ◌==◌, string_eq, ==_iff,
}

-- Row of ResourceEvent; `finish` is the column `end`, which is NULL while the resource is open.
pub record ResourceEvent : Type 0 where
  pub used_activity : String
  pub initiating_agent : String
  pub targetted_resource : String
  pub start : ℕ
  pub finish : Option ℕ

-- Row of ResourceScoreCache, with scores of type `R`
pub record ResourceScoreCache (R : Type 0) : Type 0 where
  pub used_activity : String
  pub initiating_agent : String
  pub targetted_resource : String
  pub cached_score : R
  pub first_update : ℕ
  pub last_update : ℕ

-- Row of ResourceInfo
pub record ResourceInfo : Type 0 where
  pub targetted_resource : String
  pub title : String
  pub mimetype : String
  pub auto_title : Bool
  pub auto_mimetype : Bool

-- Row of ResourceLink, and the three arguments of the methods of ResourceLinking
pub record ResourceLink : Type 0 where
  pub used_activity : String
  pub initiating_agent : String
  pub targetted_resource : String

abbrev pub link_beq : ResourceLink → ResourceLink → Bool
link_beq l m =
    l.used_activity == m.used_activity
    && l.initiating_agent == m.initiating_agent
    && l.targetted_resource == m.targetted_resource

pub link_beq_iff : (l m : ResourceLink) → (link_beq l m ≡ true) ↔ (l ≡ m)
link_beq_iff l m =
    let a = ==_iff l.used_activity m.used_activity in
    let b = ==_iff l.initiating_agent m.initiating_agent in
    let c = ==_iff l.targetted_resource m.targetted_resource in
    (λ h. ground (arith, a, b, c), λ h. ground (arith, a, b, c))

instance abbrev pub link_eq : Eq ResourceLink
link_eq = record { beq = link_beq; beq_iff = link_beq_iff }

-- `to_local_file` is QUrl(path).toLocalFile(); `exists` and `canonical_file_path` are of QFileInfo;
-- `remove_text text part` is QString::remove, and `to_base64` the encoding of QByteArray.
-- `local_file` is the path of QUrl::fromUserInput, when it is a local file; `file_mimetype` and
-- `file_text` are of KFileItem; `is_filtered filter uri` is QRegExp::exactMatch.
-- `current_activity` and `list_activities` are the answers of the Activities object.
pub record World : Type 0 where
  pub to_local_file : String → String
  pub exists : String → Bool
  pub canonical_file_path : String → String
  pub remove_text : String → String → String
  pub to_base64 : String → String
  pub local_file : String → Option String
  pub file_mimetype : String → String
  pub file_text : String → String
  pub is_filtered : List ℕ → String → Bool
  pub current_activity : String
  pub list_activities : List String
