-- ===== src/Storytime/Review/Tests.antt =====
-- The theorems about moderation in Storytime at concrete inputs.
use sto_info_backend.Base.{
  ◌≡◌, refl, true, none, some, List, [], ◌∷◌, ◌++◌, arith, ok, err, bad_request,
}
use sto_info_backend.Store.{find?, any, count_where, has_id, save_row}
use sto_info_backend.Storytime.Review.Data.{
  story, active, removed, removal, restoration, appeal_upheld, submitted, spam, Content,
  ActionEntry, Appeal, Desk, Env, appeal_row_id, refuses_appeal, is_spent_on, is_same_type,
  type_rank,
}
use sto_info_backend.Storytime.Review.Targets.{lookup_target, from_owned, is_owned}
use sto_info_backend.Storytime.Review.Acts.{ModerateContentDto, new_entry, restored_content}
use sto_info_backend.Storytime.Review.Appeals.{
  DecideAppealDto, find_appeal, decided_appeal, restoring, decide, create_appeal, withdraw,
}
use sto_info_backend.Storytime.Review.Decisions.{decide-restores, decide-active}
use sto_info_backend.Storytime.Review.Audit.{IsAudited, is_gap, agrees, is_act_on}
use sto_info_backend.Storytime.Review.Sequences.{
  Call, removing, deciding, perform_all, perform_all-IsAudited,
}
use sto_info_backend.Storytime.Review.Spent.{AppealsValid, IsSound}
use sto_info_backend.Storytime.Review.Appealing.{appeals-IsSound}

abbrev env : Env
env = record { now = 50; new_id = 9; stores = λ e. true; delivers = λ n. true }

abbrev content : Content
content = record {
  id = 1;
  moderation_status = removed;
  removed_at = some 10;
  removed_by_user_id = some 7;
  moderation_reason_code = some spam;
  moderation_message = some "Spam";
  restored_at = none;
  restored_by_user_id = none;
}

abbrev entry : ActionEntry
entry = record {
  id = 2;
  target_type = story;
  target_id = 1;
  kind = removal;
  actor_user_id = 7;
  reason_code = some spam;
  message = some "Spam";
  created_at = 10;
}

abbrev appeal : Appeal
appeal = record {
  id = 3;
  target_type = story;
  target_id = 1;
  appellant_user_id = 4;
  body = "It is not spam";
  status = submitted;
  reviewed_by_user_id = none;
  reviewed_at = none;
  review_notes = none;
  created_at = 20;
}

abbrev desk : Desk
desk = record {
  stories =
      record { content = content; owner_user_id = 4; title = "Voyage"; deleted_at = none } ∷ [];
  arcs = [];
  chapters = [];
  characters = [];
  actions = entry ∷ [];
  appeals = appeal ∷ [];
  reports = [];
  notices = [];
}

-- The Story was restored by another way meanwhile.
abbrev restored_desk : Desk
restored_desk = record desk {
  stories =
      record {
        content = record content { moderation_status = active };
        owner_user_id = 4;
        title = "Voyage";
        deleted_at = none;
      }
      ∷ [];
}

abbrev agree : DecideAppealDto
agree = record { uphold = true; review_notes = none }

decide-restores_example :
    let r = decide env 3 agree 7 desk in
    (r.0 ≡ ok (decided_appeal env agree 7 appeal))
    × (lookup_target story 1 r.1
        ≡ some (record {
          content = restored_content env 7 content;
          owner_user_id = 4;
          label = "Voyage";
        }))
    × (r.1.actions
        ≡ new_entry env story 1 appeal_upheld 7 none none
          ∷ new_entry env story 1 restoration 7 none (some (restoring agree appeal).message)
          ∷ entry
          ∷ [])
    × (r.1.appeals ≡ save_row appeal_row_id (decided_appeal env agree 7 appeal) (appeal ∷ []))
unfolding find_appeal find? refuses_appeal decided_appeal any is_spent_on lookup_target from_owned
    is_owned
decide-restores_example =
    decide-restores env 3 agree 7 desk appeal
      (record { content = content; owner_user_id = 4; label = "Voyage" }) refl refl refl refl refl
      refl refl refl

decide-active_example : decide env 3 agree 7 restored_desk ≡ (
  err (bad_request "That content has not been removed."),
  record restored_desk {
    appeals = save_row appeal_row_id (decided_appeal env agree 7 appeal) (appeal ∷ []);
  },
)
unfolding find_appeal find? refuses_appeal decided_appeal any is_spent_on lookup_target from_owned
    is_owned
decide-active_example =
    decide-active env 3 agree 7 restored_desk appeal
      (record {
        content = record content { moderation_status = active };
        owner_user_id = 4;
        label = "Voyage";
      })
      refl refl refl refl refl refl

audited : IsAudited desk
unfolding any find? is_gap agrees is_act_on is_same_type type_rank
audited = record { of_stories = refl; of_arcs = refl; of_chapters = refl; of_characters = refl }

abbrev again : ModerateContentDto
again = record { target_type = story; target_id = 1; reason_code = some spam; message = "Again" }

abbrev calls : List (Env × Call)
calls = (env, deciding 3 agree 7) ∷ (env, removing again 7) ∷ []

perform_all-IsAudited_example :
    IsAudited (perform_all calls desk)
    × ((news : List ActionEntry) × ((perform_all calls desk).actions ≡ news ++ entry ∷ []))
perform_all-IsAudited_example =
    perform_all-IsAudited calls desk ((λ e. refl), ((λ e. refl), tt)) audited

appeals_valid : AppealsValid desk.appeals
unfolding has_id appeal_row_id any count_where is_spent_on is_same_type type_rank
appeals_valid = record { ids = (refl, tt); one = λ t id user. ground arith }

appeals-IsSound_example :
    IsSound
      (create_appeal env (record { target_type = story; target_id = 1; body = "Again" }) 4 desk)
    × IsSound (withdraw 3 4 desk)
    × IsSound (decide env 3 agree 4 desk)
unfolding has_id any appeal_row_id
appeals-IsSound_example =
    appeals-IsSound env (record { target_type = story; target_id = 1; body = "Again" }) agree 3 4
      desk appeals_valid refl
