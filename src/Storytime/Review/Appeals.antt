-- ===== src/Storytime/Review/Appeals.antt =====
-- storytime/moderation/storytime-appeal.service.ts: a creator's right of reply to a removal.
use sto_info_backend.Base.{
  ℕ, String, Bool, true, false, not, Option, none, some, ◌==◌, get_or, Action, pure, raise,
  raise_if, or_raise, gets, modify, ◌>>=◌, ◌>>◌, bad_request, not_found, forbidden, if◌then◌else◌,
}
use sto_info_backend.Store.{find?}
use sto_info_backend.Storytime.Review.Data.{
  TargetType, ActionKind, appeal_upheld, appeal_rejected, AppealStatus, submitted, upheld, rejected,
  withdrawn, Appeal, Notice, Desk, Env, is_removed, is_submitted, is_spent_on, insert_appeal,
  save_appeal,
}
use sto_info_backend.Storytime.Review.Targets.{Target, find}
use sto_info_backend.Storytime.Review.Acts.{ModerateContentDto, record_action, notify, restore}

pub record CreateAppealDto : Type 0 where
  pub target_type : TargetType
  pub target_id : ℕ
  pub body : String

pub record DecideAppealDto : Type 0 where
  pub uphold : Bool
  pub review_notes : Option String

unfoldable pub new_appeal : Env → CreateAppealDto → ℕ → Appeal
new_appeal env dto user = record {
  id = env.new_id;
  target_type = dto.target_type;
  target_id = dto.target_id;
  appellant_user_id = user;
  body = dto.body;
  status = submitted;
  reviewed_by_user_id = none;
  reviewed_at = none;
  review_notes = none;
  created_at = env.now;
}

unfoldable pub spent_message : AppealStatus → String
spent_message submitted = "You have already appealed this, and it is still being looked at."
spent_message s = "This has already been appealed and decided."

unfoldable pub unless_spent : Env → CreateAppealDto → ℕ → Option Appeal → Action Desk Appeal
unless_spent env dto user none = insert_appeal (new_appeal env dto user)
unless_spent env dto user (some a) = raise (bad_request (spent_message a.status))

unfoldable pub spent_appeal : CreateAppealDto → ℕ → Desk → Option Appeal
unfolding find? is_spent_on
spent_appeal dto user desk = find? (is_spent_on dto.target_type dto.target_id user) desk.appeals

unfoldable pub create_about : Env → CreateAppealDto → ℕ → Target → Action Desk Appeal
create_about env dto user target = do
  raise_if (not (target.owner_user_id == user))
      (forbidden "Only the person whose work was removed may appeal.")
  raise_if (not (is_removed target.content.moderation_status))
      (bad_request "That content has not been removed.")
  existing ← gets (spent_appeal dto user)
  unless_spent env dto user existing

unfoldable pub create_appeal : Env → CreateAppealDto → ℕ → Action Desk Appeal
create_appeal env dto user = do
  found ← find dto.target_type dto.target_id
  target ← or_raise found (not_found "That content could not be found.")
  create_about env dto user target

unfoldable pub find_appeal : ℕ → Desk → Option Appeal
unfolding find?
find_appeal id desk = find? (λ a. a.id == id) desk.appeals

unfoldable pub withdraw_found : ℕ → Option Appeal → Action Desk Appeal
withdraw_found user none = raise (not_found "That appeal could not be found.")
withdraw_found user (some a) = do
  raise_if (not (a.appellant_user_id == user)) (forbidden "That appeal is not yours to withdraw.")
  raise_if (not (is_submitted a.status)) (bad_request "That appeal has already been decided.")
  save_appeal (record a { status = withdrawn })

unfoldable pub withdraw : ℕ → ℕ → Action Desk Appeal
withdraw appeal_id user = do found ← gets (find_appeal appeal_id); withdraw_found user found

unfoldable pub decided_appeal : Env → DecideAppealDto → ℕ → Appeal → Appeal
decided_appeal env dto actor a = record a {
  status = if dto.uphold then upheld else rejected;
  reviewed_by_user_id = some actor;
  reviewed_at = some env.now;
  review_notes = dto.review_notes;
}

unfoldable pub restoring : DecideAppealDto → Appeal → ModerateContentDto
restoring dto a = record {
  target_type = a.target_type;
  target_id = a.target_id;
  reason_code = none;
  message = get_or dto.review_notes "Your appeal was upheld and this was restored.";
}

unfoldable pub restore_if : Env → DecideAppealDto → ℕ → Appeal → Bool → Action Desk (Unit {0})
restore_if env dto actor a true = do restore env (restoring dto a) actor; pure tt
restore_if env dto actor a false = pure tt

abbrev pub decision_kind : Bool → ActionKind
decision_kind true = appeal_upheld
decision_kind false = appeal_rejected

unfoldable pub decision_notice : DecideAppealDto → Appeal → Notice
decision_notice dto a = record {
  user_id = a.appellant_user_id;
  target_type = a.target_type;
  kind = decision_kind dto.uphold;
  label = none;
  message = if dto.uphold then none else a.review_notes;
}

-- What follows the save of the decision.
unfoldable pub carry_out : Env → DecideAppealDto → ℕ → Appeal → Action Desk Appeal
carry_out env dto actor a = do
  restore_if env dto actor a dto.uphold
  record_action env a.target_type a.target_id (decision_kind dto.uphold) actor none dto.review_notes
  modify (notify env (decision_notice dto a))
  pure a

unfoldable pub decide_found : Env → DecideAppealDto → ℕ → Option Appeal → Action Desk Appeal
decide_found env dto actor none = raise (not_found "That appeal could not be found.")
decide_found env dto actor (some a) = do
  raise_if (not (is_submitted a.status))
      (bad_request "That appeal has already been answered or withdrawn.")
  saved ← save_appeal (decided_appeal env dto actor a)
  carry_out env dto actor saved

unfoldable pub decide : Env → ℕ → DecideAppealDto → ℕ → Action Desk Appeal
decide env appeal_id dto actor = do
  found ← gets (find_appeal appeal_id)
  decide_found env dto actor found
