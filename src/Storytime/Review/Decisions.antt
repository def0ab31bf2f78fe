-- ===== src/Storytime/Review/Decisions.antt =====
-- What the decision of an appeal does to the content that it is about.
use sto_info_backend.Base.{
  ℕ, ◌≡◌, refl, ap, ◌∙◌, true, false, not, none, some, ◌∷◌, ok, err, Action, bad_request, raise_if,
  pure, modify, ◌>>=◌, ◌>>◌, bind-ok, bind-err, or_raise, not_found,
}
use sto_info_backend.Store.{save_row}
use sto_info_backend.Storytime.Review.Data.{
  TargetType, active, removed, restoration, appeal_upheld, ActionEntry, Appeal, Desk, Env,
  is_submitted, appeal_row_id, refuses_appeal, save_appeal,
}
use sto_info_backend.Storytime.Review.Targets.{
  Target, find, find_moderatable, lookup_target, save_content,
}
use sto_info_backend.Storytime.Review.Acts.{
  ModerateContentDto, new_entry, record_action, notify, find_or_fail, restored_content, act,
  restore_target, restore,
}
use sto_info_backend.Storytime.Review.Appeals.{
  DecideAppealDto, find_appeal, decided_appeal, restoring, restore_if, decision_kind,
  decision_notice, carry_out, decide_found, decide,
}
use sto_info_backend.Storytime.Review.Recording.{record_action-stored, acted, act-run}
use sto_info_backend.Storytime.Review.Contents.{
  lookup_target-save_content, lookup_target-moderatable, lookup_target-congr,
}

pub find_or_fail-run :
    (t : TargetType) (id : ℕ) (desk : Desk) (target : Target)
    → lookup_target t id desk ≡ some target
    → find_or_fail t id desk ≡ (ok target, desk)
unfolding find_or_fail find find_moderatable
find_or_fail-run t id desk target h =
    bind-ok (find t id) (λ o. or_raise o (not_found "That content could not be found.")) desk
      (ap (λ b. find_moderatable b t id desk) (lookup_target-moderatable t id desk target h)
        ∙ ap (λ o. (ok o, desk)) h)

restore-run :
    (env : Env) (dto : ModerateContentDto) (actor : ℕ) (target : Target) (desk : Desk)
    → lookup_target dto.target_type dto.target_id desk ≡ some target
    → restore env dto actor desk ≡ restore_target env dto actor target desk
unfolding restore
restore-run env dto actor target desk h =
    bind-ok (find_or_fail dto.target_type dto.target_id) (restore_target env dto actor) desk
      (find_or_fail-run dto.target_type dto.target_id desk target h)

restore_target-removed :
    (env : Env) (dto : ModerateContentDto) (actor : ℕ) (target : Target) (desk : Desk)
    → target.content.moderation_status ≡ removed
    → restore_target env dto actor target desk
      ≡ act env dto actor restoration (restored_content env actor target.content) target desk
unfolding restore_target
restore_target-removed env dto actor target desk h = rw h refl

restore_target-active :
    (env : Env) (dto : ModerateContentDto) (actor : ℕ) (target : Target) (desk : Desk)
    → target.content.moderation_status ≡ active
    → restore_target env dto actor target desk
      ≡ (err (bad_request "That content has not been removed."), desk)
unfolding restore_target
restore_target-active env dto actor target desk h = rw h refl

save_appeal-ok :
    (a : Appeal) (desk : Desk)
    → refuses_appeal a desk.appeals ≡ false
    → save_appeal a desk ≡ (ok a, record desk { appeals = save_row appeal_row_id a desk.appeals })
unfolding save_appeal
save_appeal-ok a desk free = rw free refl

module _ (env : Env) (id : ℕ) (dto : DecideAppealDto) (actor : ℕ) (desk : Desk) (a : Appeal)
    (target : Target) (found : find_appeal id desk ≡ some a)
    (waiting : is_submitted a.status ≡ true)
    (free : refuses_appeal (decided_appeal env dto actor a) desk.appeals ≡ false)
    (there : lookup_target a.target_type a.target_id desk ≡ some target)
    (agreed : dto.uphold ≡ true) where
  abbrev decided : Appeal
  decided = decided_appeal env dto actor a

  abbrev saved : Desk
  saved = record desk { appeals = save_row appeal_row_id decided desk.appeals }

  decide-as_carry_out : decide env id dto actor desk ≡ carry_out env dto actor decided saved
  unfolding decide decide_found
  decide-as_carry_out =
      ap (λ o. decide_found env dto actor o desk) found
      ∙ ap
          (λ b.
            (raise_if (not b) (bad_request "That appeal has already been answered or withdrawn.")
                >> (save_appeal decided >>= carry_out env dto actor))
              desk)
          waiting
      ∙ bind-ok (save_appeal decided) (carry_out env dto actor) desk
          (save_appeal-ok decided desk free)

  still_there : lookup_target a.target_type a.target_id saved ≡ some target
  still_there = lookup_target-congr a.target_type a.target_id saved desk refl refl refl refl ∙ there

  restoring-run :
      restore env (restoring dto decided) actor saved
      ≡ restore_target env (restoring dto decided) actor target saved
  unfolding restoring decided_appeal
  restoring-run = restore-run env (restoring dto decided) actor target saved still_there

  abbrev rest : Action Desk Appeal
  rest =
      record_action env a.target_type a.target_id (decision_kind dto.uphold) actor none
        dto.review_notes
      >> (modify (notify env (decision_notice dto decided)) >> pure decided)

  carry_out-as_bind :
      carry_out env dto actor decided saved
      ≡ ((restore env (restoring dto decided) actor >> pure tt) >> rest) saved
  unfolding carry_out restore_if decided_appeal
  carry_out-as_bind = ap (λ b. (restore_if env dto actor decided b >> rest) saved) agreed

  abbrev restoration_entry : ActionEntry
  restoration_entry =
      new_entry env a.target_type a.target_id restoration actor none
        (some (restoring dto a).message)

  abbrev decision_entry : ActionEntry
  decision_entry = new_entry env a.target_type a.target_id appeal_upheld actor none dto.review_notes

  rest-run :
      (d : Desk)
      → env.stores decision_entry ≡ true
      → rest d ≡ (
        ok decided,
        notify env
            (decision_notice dto decided)
            (record d { actions = decision_entry ∷ d.actions }),
      )
  rest-run d stored =
      ap
        (λ b.
          (record_action env a.target_type a.target_id (decision_kind b) actor none dto.review_notes
              >> (modify (notify env (decision_notice dto decided)) >> pure decided))
            d)
        agreed
      ∙ bind-ok
          (record_action env a.target_type a.target_id appeal_upheld actor none dto.review_notes)
          (λ _. modify (notify env (decision_notice dto decided)) >> pure decided) d
          (record_action-stored env a.target_type a.target_id appeal_upheld actor none
            dto.review_notes d stored)

  -- An appeal that waits is upheld where no other spent appeal of its creator is about the content, the
  -- content is there and removed, and the database takes the two entries of the audit: the call returns the
  -- appeal as decided and stores it; the content is found restored by the administrator; and the audit gains
  -- the restoration, then the decision.
  pub decide-restores :
      target.content.moderation_status ≡ removed
      → env.stores restoration_entry ≡ true
      → env.stores decision_entry ≡ true
      → let r = decide env id dto actor desk in
        (r.0 ≡ ok (decided_appeal env dto actor a))
        × (lookup_target a.target_type a.target_id r.1
            ≡ some (record target { content = restored_content env actor target.content }))
        × (r.1.actions ≡ decision_entry ∷ restoration_entry ∷ desk.actions)
        × (r.1.appeals ≡ save_row appeal_row_id (decided_appeal env dto actor a) desk.appeals)
  unfolding notify acted save_content restoring decided_appeal restored_content
  decide-restores gone stored stored' =
      let m = restoring dto decided in
      let c = restored_content env actor target.content in
      let after = acted env m actor restoration c target saved in
      let final =
        notify env (decision_notice dto decided)
          (record after { actions = decision_entry ∷ after.actions }) in
      let restored =
        bind-ok (restore env m actor) (λ _. pure tt) saved
          (restoring-run
            ∙ restore_target-removed env m actor target saved gone
            ∙ act-run env m actor restoration c target saved stored) in
      let run =
        decide-as_carry_out
        ∙ carry_out-as_bind
        ∙ bind-ok (restore env m actor >> pure tt) (λ _. rest) saved restored
        ∙ rest-run after stored' in
      (
        ap (λ r. r.0) run,
        ap (λ r. lookup_target a.target_type a.target_id r.1) run
            ∙ lookup_target-congr a.target_type a.target_id final
                (save_content a.target_type c desk) refl refl refl refl
            ∙ lookup_target-save_content a.target_type a.target_id c desk target refl there,
        ap (λ r. r.1.actions) run,
        ap (λ r. r.1.appeals) run,
      )

  -- An appeal that waits, where no other spent appeal of its creator is about the content, is upheld while
  -- the content is there and has been restored already: the call fails, and the appeal is stored as upheld
  -- all the same, without an entry in the audit or a notification.
  pub decide-active :
      target.content.moderation_status ≡ active
      → decide env id dto actor desk ≡ (
        err (bad_request "That content has not been removed."),
        record desk {
          appeals = save_row appeal_row_id (decided_appeal env dto actor a) desk.appeals;
        },
      )
  decide-active kept =
      let m = restoring dto decided in
      let failed =
        bind-err (restore env m actor) (λ _. pure tt) saved
          (restoring-run ∙ restore_target-active env m actor target saved kept) in
      decide-as_carry_out
      ∙ carry_out-as_bind
      ∙ bind-err (restore env m actor >> pure tt) (λ _. rest) saved failed
