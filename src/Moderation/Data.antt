-- ===== src/Moderation/Data.antt =====
-- The rows behind the moderation: moderation/entities and enums, with the constraints of the migration
-- database/migrations/1786233600000-CreateUserReporting.ts, beside the users, the community's tables
-- and the refresh tokens.
use sto_info_backend.Base.{
  ℕ, String, Bool, true, false, not, ◌&&◌, ◌||◌, Option, List, ◌∷◌, ◌==◌, if◌then◌else◌, is_none,
  Action, ok, err, query_failed,
}
use sto_info_backend.Store.{any, update_where, save_row}
use sto_info_backend.Users.{User}
use sto_info_backend.Sessions.{Tokens}
use sto_info_backend.Community.Data.{Profile, Db as CommunityDb}

pub data ReportReason : Type 0 where
  harassment hate_speech spam impersonation inappropriate_content other : ReportReason

pub data ReportStatus : Type 0 where
  opened under_review actioned dismissed : ReportStatus

-- `UNRESOLVED_STATUSES.includes(status)`
abbrev pub is_unresolved : ReportStatus → Bool
is_unresolved opened = true
is_unresolved under_review = true
is_unresolved actioned = false
is_unresolved dismissed = false

-- `UserReportEntity`; `updatedAt` is never read.
pub record UserReport : Type 0 where
  pub id : ℕ
  pub reporter_id : ℕ
  pub reported_id : ℕ
  pub reason : ReportReason
  pub details : Option String
  pub status : ReportStatus
  pub moderator_notes : Option String
  pub reviewed_by_id : Option ℕ
  pub reviewed_at : Option ℕ
  pub created_at : ℕ
  pub deleted_at : Option ℕ

-- The state of the site that moderation reads and writes.
pub record Site : Type 0 where
  pub users : List User
  pub reports : List UserReport
  pub tokens : Tokens
  pub community : CommunityDb

unfoldable pub report_row_id : UserReport → ℕ
report_row_id r = r.id

unfoldable pub account_id : User → ℕ
account_id u = u.id

-- A live unresolved report of one member about another.
unfoldable pub is_awaiting : ℕ → ℕ → UserReport → Bool
is_awaiting reporter_id reported_id r =
    r.reporter_id == reporter_id
    && r.reported_id == reported_id
    && is_unresolved r.status
    && is_none r.deleted_at

-- What CHK_user_report_not_self and UQ_user_report_open_pair refuse to hold beside the other rows.
unfoldable pub refuses_report : UserReport → List UserReport → Bool
unfolding any is_awaiting
refuses_report r rows =
    r.reporter_id == r.reported_id
    || is_none r.deleted_at
      && is_unresolved r.status
      && any (λ s. not (s.id == r.id) && is_awaiting r.reporter_id r.reported_id s) rows

unfoldable pub insert_report : UserReport → Action Site (Unit {0})
insert_report r site =
    if refuses_report r site.reports
    then (err query_failed, site)
    else (ok tt, record site { reports = r ∷ site.reports })

unfoldable pub save_report : UserReport → Action Site (Unit {0})
unfolding save_row report_row_id
save_report r site =
    if refuses_report r site.reports
    then (err query_failed, site)
    else (ok tt, record site { reports = save_row report_row_id r site.reports })

-- A save of a user shows in the columns that the community's queries join in from it.
unfoldable pub join_user : User → List Profile → List Profile
unfolding update_where
join_user u =
    update_where (λ p. p.user_id == u.id)
      (λ p. record p { user_is_account_disabled = u.is_account_disabled })

unfoldable pub save_user : User → Action Site (Unit {0})
unfolding save_row account_id join_user
save_user u site = (
  ok tt,
  record site {
    users = save_row account_id u site.users;
    community = record site.community { profiles = join_user u site.community.profiles };
  },
)
