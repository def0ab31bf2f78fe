-- ===== src/Storytime/Review/Acts.antt =====
-- storytime/moderation/storytime-moderation.service.ts: removing, restoring, and the audit of both.
use sto_info_backend.Base.{
  ℕ, String, not, Option, none, some, ◌∷◌, Action, ok, err, reference_failed, pure, raise_if,
  or_raise, ◌>>=◌, ◌>>◌, bad_request, not_found, if◌then◌else◌, modify,
}
use sto_info_backend.Storytime.Review.Data.{
  TargetType, active, removed, ActionKind, removal, restoration, Reason, Content, ActionEntry,
  Notice, Desk, Env, is_removed,
}
use sto_info_backend.Storytime.Review.Targets.{Target, find, save}

pub record ModerateContentDto : Type 0 where
  pub target_type : TargetType
  pub target_id : ℕ
  pub reason_code : Option Reason
  pub message : String

unfoldable pub new_entry :
    Env → TargetType → ℕ → ActionKind → ℕ → Option Reason → Option String → ActionEntry
new_entry env t id kind actor reason message = record {
  id = env.new_id;
  target_type = t;
  target_id = id;
  kind = kind;
  actor_user_id = actor;
  reason_code = reason;
  message = message;
  created_at = env.now;
}

-- `record`, which is reserved: an insertion of its own, after what the caller has written.
unfoldable pub record_action :
    Env → TargetType → ℕ → ActionKind → ℕ → Option Reason → Option String → Action Desk ActionEntry
unfolding new_entry
record_action env t id kind actor reason message desk =
    if env.stores (new_entry env t id kind actor reason message)
    then (
      ok (new_entry env t id kind actor reason message),
      record desk { actions = new_entry env t id kind actor reason message ∷ desk.actions },
    )
    else (err (reference_failed actor), desk)

-- Best effort: a notification that fails is logged.
unfoldable pub notify : Env → Notice → Desk → Desk
notify env n desk = record desk {
  notices = if env.delivers n then n ∷ desk.notices else desk.notices;
}

unfoldable pub find_or_fail : TargetType → ℕ → Action Desk Target
find_or_fail t id = do
  target ← find t id
  or_raise target (not_found "That content could not be found.")

unfoldable pub removed_content : Env → ModerateContentDto → ℕ → Content → Content
removed_content env dto actor c = record c {
  moderation_status = removed;
  removed_at = some env.now;
  removed_by_user_id = some actor;
  moderation_reason_code = dto.reason_code;
  moderation_message = some dto.message;
  restored_at = none;
  restored_by_user_id = none;
}

unfoldable pub restored_content : Env → ℕ → Content → Content
restored_content env actor c = record c {
  moderation_status = active;
  restored_at = some env.now;
  restored_by_user_id = some actor;
}

unfoldable pub notice_of : ModerateContentDto → ActionKind → Target → Notice
notice_of dto kind target = record {
  user_id = target.owner_user_id;
  target_type = dto.target_type;
  kind = kind;
  label = some target.label;
  message = some dto.message;
}

-- Save, record, notify.
unfoldable pub act :
    Env → ModerateContentDto → ℕ → ActionKind → Content → Target → Action Desk ActionEntry
unfolding save record_action
act env dto actor kind c target = do
  save dto.target_type c
  entry ←
      record_action env dto.target_type dto.target_id kind actor dto.reason_code (some dto.message)
  modify (notify env (notice_of dto kind target))
  pure entry

unfoldable pub remove_target : Env → ModerateContentDto → ℕ → Target → Action Desk ActionEntry
remove_target env dto actor target = do
  raise_if (is_removed target.content.moderation_status)
      (bad_request "That content has already been removed.")
  act env dto actor removal (removed_content env dto actor target.content) target

unfoldable pub remove : Env → ModerateContentDto → ℕ → Action Desk ActionEntry
remove env dto actor = do
  target ← find_or_fail dto.target_type dto.target_id
  remove_target env dto actor target

unfoldable pub restore_target : Env → ModerateContentDto → ℕ → Target → Action Desk ActionEntry
restore_target env dto actor target = do
  raise_if (not (is_removed target.content.moderation_status))
      (bad_request "That content has not been removed.")
  act env dto actor restoration (restored_content env actor target.content) target

unfoldable pub restore : Env → ModerateContentDto → ℕ → Action Desk ActionEntry
restore env dto actor = do
  target ← find_or_fail dto.target_type dto.target_id
  restore_target env dto actor target
