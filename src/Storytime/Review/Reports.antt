-- ===== src/Storytime/Review/Reports.antt =====
-- storytime/moderation/storytime-report.service.ts: reports about content.
use sto_info_backend.Base.{
  ℕ, String, Bool, true, false, Option, none, some, ◌==◌, or_else, ◌&&◌, is_none, Action, pure,
  raise, or_raise, gets, ◌>>=◌, ◌>>◌, bad_request, not_found, if◌then◌else◌,
}
use sto_info_backend.Store.{find?, count_where}
use sto_info_backend.Moderation.Data.{ReportStatus, opened, is_unresolved}
use sto_info_backend.Storytime.Review.Data.{
  TargetType, report_resolved, Reason, Report, Desk, Env, is_live_on, insert_story_report,
  save_story_report,
}
use sto_info_backend.Storytime.Review.Targets.{find, is_moderatable}
use sto_info_backend.Storytime.Review.Acts.{record_action}

pub record CreateReportDto : Type 0 where
  pub target_type : TargetType
  pub target_id : ℕ
  pub reason_code : Reason
  pub description : Option String

pub record ResolveReportDto : Type 0 where
  pub status : ReportStatus
  pub resolution : Option String

unfoldable pub assert_reportable_if : Bool → TargetType → ℕ → Action Desk (Unit {0})
assert_reportable_if false t id = pure tt
assert_reportable_if true t id = do
  found ← find t id
  or_raise found (not_found "That content could not be found.")
  pure tt

unfoldable pub assert_reportable : TargetType → ℕ → Action Desk (Unit {0})
unfolding is_moderatable
assert_reportable t id = assert_reportable_if (is_moderatable t) t id

unfoldable pub new_report : Env → CreateReportDto → ℕ → Report
new_report env dto user = record {
  id = env.new_id;
  reporter_user_id = user;
  target_type = dto.target_type;
  target_id = dto.target_id;
  reason_code = dto.reason_code;
  description = dto.description;
  status = opened;
  assigned_to_user_id = none;
  resolution = none;
  resolved_at = none;
  created_at = env.now;
  deleted_at = none;
}

unfoldable pub live_report : CreateReportDto → ℕ → Desk → Option Report
unfolding find? is_live_on
live_report dto user desk = find? (is_live_on dto.target_type dto.target_id user) desk.reports

unfoldable pub unless_live : Env → CreateReportDto → ℕ → Option Report → Action Desk Report
unless_live env dto user none = insert_story_report (new_report env dto user)
unless_live env dto user (some r) =
    raise (bad_request "You have already reported this, and it is still being looked at.")

unfoldable pub create_report : Env → CreateReportDto → ℕ → Action Desk Report
create_report env dto user = do
  assert_reportable dto.target_type dto.target_id
  existing ← gets (live_report dto user)
  unless_live env dto user existing

unfoldable pub find_report : ℕ → Desk → Option Report
unfolding find?
find_report id desk = find? (λ r. r.id == id && is_none r.deleted_at) desk.reports

unfoldable pub resolved_report : Env → ResolveReportDto → ℕ → Report → Report
resolved_report env dto actor r = record r {
  status = dto.status;
  resolution = or_else dto.resolution r.resolution;
  assigned_to_user_id = some actor;
  resolved_at = if is_unresolved dto.status then none else some env.now;
}

unfoldable pub record_resolution :
    Env → ResolveReportDto → ℕ → Report → Bool → Action Desk (Unit {0})
record_resolution env dto actor r true = pure tt
record_resolution env dto actor r false = do
  record_action env r.target_type r.target_id report_resolved actor (some r.reason_code)
      dto.resolution
  pure tt

unfoldable pub resolve_found : Env → ResolveReportDto → ℕ → Option Report → Action Desk Report
resolve_found env dto actor none = raise (not_found "That report could not be found.")
resolve_found env dto actor (some r) = do
  saved ← save_story_report (resolved_report env dto actor r)
  record_resolution env dto actor saved (is_none saved.resolved_at)
  pure saved

unfoldable pub resolve : Env → ℕ → ResolveReportDto → ℕ → Action Desk Report
resolve env report_id dto actor = do
  found ← gets (find_report report_id)
  resolve_found env dto actor found

unfoldable pub count_unresolved : Desk → ℕ
unfolding count_where
count_unresolved desk =
    count_where (λ r. is_unresolved r.status && is_none r.deleted_at) desk.reports
