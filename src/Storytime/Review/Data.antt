-- ===== src/Storytime/Review/Data.antt =====
-- The rows of storytime/moderation and the moderation columns of the content, with the constraints of the
-- migration database/migrations/1789000000000-CreateStorytimeModeration.ts.
use sto_info_backend.Base.{
  ℕ, String, Bool, true, false, not, ◌&&◌, Option, List, ◌∷◌, ◌==◌, if◌then◌else◌, is_none, Action,
  ok, err, query_failed,
}
use sto_info_backend.Store.{any, save_row}
use sto_info_backend.Moderation.Data.{ReportStatus, is_unresolved}

pub data TargetType : Type 0 where
  story chapter character arc media crew_credit comment spotlight : TargetType

pub data ModerationStatus : Type 0 where
  active removed : ModerationStatus

pub data ActionKind : Type 0 where
  removal restoration report_resolved appeal_upheld appeal_rejected : ActionKind

pub data AppealStatus : Type 0 where
  submitted upheld rejected withdrawn : AppealStatus

pub data Reason : Type 0 where
  harassment hate_content explicit_content graphic_violence plagiarism impersonation : Reason
  personal_information copyright spam malicious_link deceptive_media : Reason
  ai_generated_content commercial_content other : Reason

-- `ModeratableFields`
pub record Content : Type 0 where
  pub id : ℕ
  pub moderation_status : ModerationStatus
  pub removed_at : Option ℕ
  pub removed_by_user_id : Option ℕ
  pub moderation_reason_code : Option Reason
  pub moderation_message : Option String
  pub restored_at : Option ℕ
  pub restored_by_user_id : Option ℕ

-- A Story or an Arc.
pub record Owned : Type 0 where
  pub content : Content
  pub owner_user_id : ℕ
  pub title : String
  pub deleted_at : Option ℕ

-- A Chapter or a Character, with its title or name.
pub record Child : Type 0 where
  pub content : Content
  pub story_id : ℕ
  pub title : String
  pub deleted_at : Option ℕ

-- `StorytimeModerationActionEntity`
pub record ActionEntry : Type 0 where
  pub id : ℕ
  pub target_type : TargetType
  pub target_id : ℕ
  pub kind : ActionKind
  pub actor_user_id : ℕ
  pub reason_code : Option Reason
  pub message : Option String
  pub created_at : ℕ

-- `StorytimeModerationAppealEntity`
pub record Appeal : Type 0 where
  pub id : ℕ
  pub target_type : TargetType
  pub target_id : ℕ
  pub appellant_user_id : ℕ
  pub body : String
  pub status : AppealStatus
  pub reviewed_by_user_id : Option ℕ
  pub reviewed_at : Option ℕ
  pub review_notes : Option String
  pub created_at : ℕ

-- `StorytimeReportEntity`
pub record Report : Type 0 where
  pub id : ℕ
  pub reporter_user_id : ℕ
  pub target_type : TargetType
  pub target_id : ℕ
  pub reason_code : Reason
  pub description : Option String
  pub status : ReportStatus
  pub assigned_to_user_id : Option ℕ
  pub resolution : Option String
  pub resolved_at : Option ℕ
  pub created_at : ℕ
  pub deleted_at : Option ℕ

-- A notification: to whom, about what kind of act, and what its text is composed of.
pub record Notice : Type 0 where
  pub user_id : ℕ
  pub target_type : TargetType
  pub kind : ActionKind
  pub label : Option String
  pub message : Option String

pub record Desk : Type 0 where
  pub stories : List Owned
  pub arcs : List Owned
  pub chapters : List Child
  pub characters : List Child
  pub actions : List ActionEntry
  pub appeals : List Appeal
  pub reports : List Report
  pub notices : List Notice

-- Outside this code: the time, the uuid that the database draws, whether the database takes an entry of the
-- audit, which its key, the foreign key to its actor or the connection may refuse, and whether a
-- notification is taken.
pub record Env : Type 0 where
  pub now : ℕ
  pub new_id : ℕ
  pub stores : ActionEntry → Bool
  pub delivers : Notice → Bool

-- The kinds are compared by their place in the enumeration.
unfoldable pub type_rank : TargetType → ℕ
type_rank story = 0
type_rank chapter = 1
type_rank character = 2
type_rank arc = 3
type_rank media = 4
type_rank crew_credit = 5
type_rank comment = 6
type_rank spotlight = 7

unfoldable pub is_same_type : TargetType → TargetType → Bool
is_same_type s t = type_rank s == type_rank t

abbrev pub is_removed : ModerationStatus → Bool
is_removed active = false
is_removed removed = true

abbrev pub is_submitted : AppealStatus → Bool
is_submitted submitted = true
is_submitted upheld = false
is_submitted rejected = false
is_submitted withdrawn = false

-- `SPENT_STATUSES.includes(status)`
abbrev pub is_spent : AppealStatus → Bool
is_spent submitted = true
is_spent upheld = true
is_spent rejected = true
is_spent withdrawn = false

unfoldable pub appeal_row_id : Appeal → ℕ
appeal_row_id a = a.id

unfoldable pub story_report_row_id : Report → ℕ
story_report_row_id r = r.id

-- A spent appeal of one creator about one target.
unfoldable pub is_spent_on : TargetType → ℕ → ℕ → Appeal → Bool
unfolding is_same_type
is_spent_on t id user a =
    is_same_type t a.target_type
    && a.target_id == id
    && a.appellant_user_id == user
    && is_spent a.status

-- A live report of one reader about one target.
unfoldable pub is_live_on : TargetType → ℕ → ℕ → Report → Bool
unfolding is_same_type
is_live_on t id user r =
    is_same_type t r.target_type
    && r.target_id == id
    && r.reporter_user_id == user
    && is_unresolved r.status
    && is_none r.deleted_at

-- UQ_storytime_appeal_one_per_target
unfoldable pub refuses_appeal : Appeal → List Appeal → Bool
unfolding any is_spent_on
refuses_appeal a rows =
    is_spent a.status
    && any (λ b. not (b.id == a.id) && is_spent_on a.target_type a.target_id a.appellant_user_id b)
        rows

unfoldable pub insert_appeal : Appeal → Action Desk Appeal
insert_appeal a desk =
    if refuses_appeal a desk.appeals
    then (err query_failed, desk)
    else (ok a, record desk { appeals = a ∷ desk.appeals })

unfoldable pub save_appeal : Appeal → Action Desk Appeal
unfolding save_row appeal_row_id
save_appeal a desk =
    if refuses_appeal a desk.appeals
    then (err query_failed, desk)
    else (ok a, record desk { appeals = save_row appeal_row_id a desk.appeals })

-- UQ_storytime_report_one_live_per_target
unfoldable pub refuses_story_report : Report → List Report → Bool
unfolding any is_live_on
refuses_story_report r rows =
    is_none r.deleted_at
    && is_unresolved r.status
    && any (λ s. not (s.id == r.id) && is_live_on r.target_type r.target_id r.reporter_user_id s)
        rows

unfoldable pub insert_story_report : Report → Action Desk Report
insert_story_report r desk =
    if refuses_story_report r desk.reports
    then (err query_failed, desk)
    else (ok r, record desk { reports = r ∷ desk.reports })

unfoldable pub save_story_report : Report → Action Desk Report
unfolding save_row story_report_row_id
save_story_report r desk =
    if refuses_story_report r desk.reports
    then (err query_failed, desk)
    else (ok r, record desk { reports = save_row story_report_row_id r desk.reports })
