-- ===== src/Moderation/Reports.antt =====
-- moderation/report.service.ts: reports, and the queue that works through them. The paged list of the
-- queue is left out.
use sto_info_backend.Base.{
  ℕ, String, Bool, false, ◌&&◌, Option, none, some, List, [], ◌∷◌, ◌==◌, if◌then◌else◌, is_none,
  or_else, suc, Action, pure, raise, raise_if, ◌>>=◌, ◌>>◌, gets, or_raise, modify, bad_request,
  not_found, conflict,
}
use sto_info_backend.Store.{find?, count_where, update_where, contains}
use sto_info_backend.Store.Dict.{Dict, lookup, insert}
use sto_info_backend.Users.{User, is_user}
use sto_info_backend.Community.Data.{Profile, Env as CommunityEnv}
use sto_info_backend.Community.Members.{find_active}
use sto_info_backend.Moderation.Data.{
  ReportReason, ReportStatus, opened, actioned, is_unresolved, UserReport, Site, is_awaiting,
  insert_report, save_report,
}

-- `CreateUserReportDto`, `UpdateReportDto`
pub record CreateUserReport : Type 0 where
  pub username : String
  pub reason : ReportReason
  pub details : Option String

pub record UpdateReport : Type 0 where
  pub status : ReportStatus
  pub moderator_notes : Option String

-- `ReportPartyDto`, `UserReportDto`
pub record ReportParty : Type 0 where
  pub user_id : ℕ
  pub username : Option String
  pub profile_picture_100 : Option String
  pub is_account_disabled : Bool

pub record UserReportView : Type 0 where
  pub id : ℕ
  pub reporter : ReportParty
  pub reported : ReportParty
  pub reason : ReportReason
  pub details : Option String
  pub status : ReportStatus
  pub moderator_notes : Option String
  pub reviewed_by : Option String
  pub reviewed_at : Option ℕ
  pub created_at : ℕ

unfoldable pub new_report : CommunityEnv → ℕ → ℕ → CreateUserReport → UserReport
new_report env reporter_id reported_id dto = record {
  id = env.new_id;
  reporter_id = reporter_id;
  reported_id = reported_id;
  reason = dto.reason;
  details = dto.details;
  status = opened;
  moderator_notes = none;
  reviewed_by_id = none;
  reviewed_at = none;
  created_at = env.now;
  deleted_at = none;
}

unfoldable pub file_report :
    CommunityEnv → ℕ → CreateUserReport → ℕ → Option UserReport → Action Site (Unit {0})
file_report env reporter_id dto reported_id (some r) =
    raise (conflict "You already have a report about this member awaiting review")
file_report env reporter_id dto reported_id none =
    insert_report (new_report env reporter_id reported_id dto)

-- `reportMember`, once the member is found.
unfoldable pub report_target :
    CommunityEnv → ℕ → CreateUserReport → Profile → Action Site (Unit {0})
report_target env reporter_id dto target = do
  raise_if (target.user_id == reporter_id) (bad_request "You cannot report yourself")
  existing ← gets (λ site. find? (is_awaiting reporter_id target.user_id) site.reports)
  file_report env reporter_id dto target.user_id existing

unfoldable pub report_member : CommunityEnv → ℕ → CreateUserReport → Action Site (Unit {0})
report_member env reporter_id dto = do
  found ← gets (λ site. find_active env dto.username site.community)
  target ← or_raise found (not_found "Member not found")
  report_target env reporter_id dto target

-- The left joins.
unfoldable pub profile_of : ℕ → Site → Option Profile
unfolding find?
profile_of user_id site =
    find? (λ p. p.user_id == user_id && is_none p.deleted_at) site.community.profiles

unfoldable pub user_of : ℕ → Site → Option User
unfolding find? is_user
user_of user_id site = find? (is_user user_id) site.users

abbrev picture_of : Option Profile → Option String
picture_of none = none
picture_of (some p) = p.profile_picture_100

abbrev pub username_of : Option Profile → Option String
username_of none = none
username_of (some p) = some p.username

unfoldable pub party_of : ℕ → Option User → Option Profile → ReportParty
party_of user_id none profile = record {
  user_id = user_id;
  username = none;
  profile_picture_100 = none;
  is_account_disabled = false;
}
party_of user_id (some u) profile = record {
  user_id = user_id;
  username = username_of profile;
  profile_picture_100 = picture_of profile;
  is_account_disabled = u.is_account_disabled;
}

unfoldable pub to_party : ℕ → Site → ReportParty
unfolding party_of user_of profile_of
to_party user_id site = party_of user_id (user_of user_id site) (profile_of user_id site)

abbrev pub reviewer_name : Option User → Option Profile → Option String
reviewer_name none profile = none
reviewer_name (some u) profile = or_else (username_of profile) (some u.email)

unfoldable pub reviewed_by : Option ℕ → Site → Option String
unfolding user_of profile_of
reviewed_by none site = none
reviewed_by (some i) site = reviewer_name (user_of i site) (profile_of i site)

unfoldable pub to_report : UserReport → Site → UserReportView
unfolding to_party reviewed_by
to_report r site = record {
  id = r.id;
  reporter = to_party r.reporter_id site;
  reported = to_party r.reported_id site;
  reason = r.reason;
  details = r.details;
  status = r.status;
  moderator_notes = r.moderator_notes;
  reviewed_by = reviewed_by r.reviewed_by_id site;
  reviewed_at = r.reviewed_at;
  created_at = r.created_at;
}

unfoldable pub is_live_report : ℕ → UserReport → Bool
is_live_report report_id r = is_none r.deleted_at && r.id == report_id

unfoldable pub require_report : ℕ → Action Site UserReport
require_report report_id = do
  found ← gets (λ site. find? (is_live_report report_id) site.reports)
  or_raise found (not_found "Report not found")

unfoldable pub find_one_for_admin : ℕ → Action Site UserReportView
find_one_for_admin report_id = do r ← require_report report_id; gets (to_report r)

unfoldable pub reviewed_row : CommunityEnv → ℕ → UpdateReport → UserReport → UserReport
reviewed_row env admin_user_id dto r = record r {
  status = dto.status;
  moderator_notes = or_else dto.moderator_notes r.moderator_notes;
  reviewed_by_id = some admin_user_id;
  reviewed_at = some env.now;
}

unfoldable pub update_for_admin : CommunityEnv → ℕ → ℕ → UpdateReport → Action Site UserReportView
update_for_admin env report_id admin_user_id dto = do
  r ← require_report report_id
  save_report (reviewed_row env admin_user_id dto r)
  find_one_for_admin report_id

unfoldable pub is_unresolved_report : UserReport → Bool
is_unresolved_report r = is_unresolved r.status && is_none r.deleted_at

unfoldable pub count_unresolved : Site → ℕ
unfolding count_where is_unresolved_report
count_unresolved site = count_where is_unresolved_report site.reports

-- The rows of the grouped count.
unfoldable pub is_unresolved_about : ℕ → UserReport → Bool
is_unresolved_about reported_id r =
    r.reported_id == reported_id && is_unresolved r.status && is_none r.deleted_at

unfoldable pub add_one : Option ℕ → ℕ
add_one none = 1
add_one (some n) = suc n

unfoldable pub count_by_reported : List ℕ → List UserReport → Dict ℕ
unfolding lookup insert contains add_one
count_by_reported user_ids [] = []
count_by_reported user_ids (r ∷ rs) =
    let counts = count_by_reported user_ids rs in
    if contains r.reported_id user_ids && (is_unresolved r.status && is_none r.deleted_at)
    then insert r.reported_id (add_one (lookup r.reported_id counts)) counts
    else counts

unfoldable pub count_unresolved_by_reported_user : List ℕ → Site → Dict ℕ
unfolding count_by_reported
count_unresolved_by_reported_user [] site = []
count_unresolved_by_reported_user (i ∷ user_ids) site =
    count_by_reported (i ∷ user_ids) site.reports

unfoldable pub action_row : CommunityEnv → ℕ → UserReport → UserReport
action_row env admin_user_id r = record r {
  status = actioned;
  reviewed_by_id = some admin_user_id;
  reviewed_at = some env.now;
}

-- The number of rows that the UPDATE touched, for the log.
unfoldable pub action_reports_against : CommunityEnv → ℕ → ℕ → Action Site ℕ
action_reports_against env reported_id admin_user_id = do
  affected ← gets (λ site. count_where (is_unresolved_about reported_id) site.reports)
  modify (λ site. record site {
    reports =
        update_where (is_unresolved_about reported_id) (action_row env admin_user_id) site.reports;
  })
  pure affected
