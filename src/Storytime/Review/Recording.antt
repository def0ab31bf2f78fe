-- ===== src/Storytime/Review/Recording.antt =====
-- The entries of the audit that the calls insert.
use sto_info_backend.Base.{
  ℕ, ◌≡◌, refl, String, true, Option, some, ◌∷◌, ok, modify, pure, ◌>>◌, bind-ok,
}
use sto_info_backend.Storytime.Review.Data.{Reason, TargetType, ActionKind, Content, Desk, Env}
use sto_info_backend.Storytime.Review.Targets.{Target, save_content, save}
use sto_info_backend.Storytime.Review.Acts.{
  ModerateContentDto, new_entry, record_action, notify, notice_of, act,
}

pub record_action-stored :
    (env : Env) (t : TargetType) (id : ℕ) (kind : ActionKind) (actor : ℕ) (reason : Option Reason)
    (message : Option String) (d : Desk)
    → env.stores (new_entry env t id kind actor reason message) ≡ true
    → record_action env t id kind actor reason message d ≡ (
      ok (new_entry env t id kind actor reason message),
      record d { actions = new_entry env t id kind actor reason message ∷ d.actions },
    )
unfolding record_action
record_action-stored env t id kind actor reason message d stored = rw stored refl

-- The desk after an act on content.
unfoldable pub acted : Env → ModerateContentDto → ℕ → ActionKind → Content → Target → Desk → Desk
unfolding notify save_content new_entry notice_of
acted env dto actor kind c target desk =
    notify env (notice_of dto kind target) (record (save_content dto.target_type c desk) {
      actions =
          new_entry env dto.target_type dto.target_id kind actor dto.reason_code (some dto.message)
          ∷ desk.actions;
    })

pub act-run :
    (env : Env) (dto : ModerateContentDto) (actor : ℕ) (kind : ActionKind) (c : Content)
    (target : Target) (desk : Desk)
    → env.stores
        (new_entry env dto.target_type dto.target_id kind actor dto.reason_code (some dto.message))
      ≡ true
    → act env dto actor kind c target desk ≡ (
      ok (
          new_entry env dto.target_type dto.target_id kind actor dto.reason_code
            (some dto.message)),
      acted env dto actor kind c target desk,
    )
unfolding act save acted
act-run env dto actor kind c target desk stored =
    let t = dto.target_type in
    let e = new_entry env t dto.target_id kind actor dto.reason_code (some dto.message) in
    let recorded =
      record_action-stored env t dto.target_id kind actor dto.reason_code (some dto.message)
        (save_content t c desk) stored in
    bind-ok (record_action env t dto.target_id kind actor dto.reason_code (some dto.message))
      (λ entry. modify (notify env (notice_of dto kind target)) >> pure entry)
      (save_content t c desk) recorded
