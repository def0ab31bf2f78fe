-- ===== src/Storytime/Review/Answers.antt =====
-- The parts of the calls on appeals, against the rule of one spent appeal for each creator and content.
use mathlib.Core.Path.{subst}
use sto_info_backend.Base.{
  ℕ, ◌≤◌, ◌≡◌, refl, sym, inl, inr, String, Bool, true, false, not, ◌&&◌, Option, none, some, List,
  ◌∷◌, arith, ◌==◌, Bool-cases, ok, pure, modify, ◌>>◌, or_raise, not_found,
}
use sto_info_backend.Store.{has_id, find?, count_where, save_row}
use sto_info_backend.Store.Laws.{
  any_mono_false, count_where_mono, count_where-eq_zero-any, find?-eq_none-count_where,
  count_where-cons, count_where-save_row, HasDistinctIds-save_row,
}
use sto_info_backend.Storytime.Review.Data.{
  restoration, TargetType, ActionKind, Reason, Content, Appeal, Desk, Env, is_removed, is_spent_on,
  appeal_row_id, refuses_appeal, insert_appeal, save_appeal,
}
use sto_info_backend.Storytime.Review.Targets.{
  Target, find, find_moderatable, is_moderatable, save, save_content,
}
use sto_info_backend.Storytime.Review.Acts.{
  ModerateContentDto, new_entry, notice_of, record_action, notify, act, find_or_fail,
  restored_content, restore_target, restore,
}
use sto_info_backend.Storytime.Review.Appeals.{
  DecideAppealDto, restoring, restore_if, decision_kind, decision_notice, carry_out,
}
use sto_info_backend.Storytime.Review.Spent.{
  AppealsValid, IsSound, IsSound-bind, IsSound-raise_if, same_key,
}

insert_appeal-ok :
    (a : Appeal) (d : Desk)
    → refuses_appeal a d.appeals ≡ false
    → insert_appeal a d ≡ (ok a, record d { appeals = a ∷ d.appeals })
unfolding insert_appeal
insert_appeal-ok a d free = rw free refl

save_appeal-ok :
    (a : Appeal) (d : Desk)
    → refuses_appeal a d.appeals ≡ false
    → save_appeal a d ≡ (ok a, record d { appeals = save_row appeal_row_id a d.appeals })
unfolding save_appeal
save_appeal-ok a d free = rw free refl

not_refused :
    (a : Appeal) (rows : List Appeal)
    → count_where (is_spent_on a.target_type a.target_id a.appellant_user_id) rows ≡ 0
    → refuses_appeal a rows ≡ false
unfolding refuses_appeal
not_refused a rows zero =
    let p = is_spent_on a.target_type a.target_id a.appellant_user_id in
    let others =
      any_mono_false (λ b. not (b.id == a.id) && p b) p (λ b e. ground (arith, e)) rows
        (count_where-eq_zero-any p rows zero) in
    ground (arith, others)

one_more :
    (t : TargetType) (id user : ℕ) (a : Appeal) (rows : List Appeal)
    → count_where (is_spent_on a.target_type a.target_id a.appellant_user_id) rows ≡ 0
    → is_spent_on a.target_type a.target_id a.appellant_user_id a ≡ true
    → count_where (is_spent_on t id user) rows ≤ 1
    → count_where (is_spent_on t id user) (a ∷ rows) ≤ 1
one_more t id user a rows zero own one = elim (Bool-cases (is_spent_on t id user a)) [
  | inl meets ↦
      let fewer =
        count_where_mono (is_spent_on t id user)
          (is_spent_on a.target_type a.target_id a.appellant_user_id)
          (λ x. same_key t a.target_type id a.target_id user a.appellant_user_id a x meets own)
          rows in
      let counted = count_where-cons (is_spent_on t id user) a rows in
      ground (arith, counted, fewer, zero, meets)
  | inr other ↦
      let counted = count_where-cons (is_spent_on t id user) a rows in
      ground (arith, counted, other, one)
]

pub IsSound-insert_appeal :
    (a : Appeal) (d : Desk)
    → AppealsValid d.appeals
    → has_id appeal_row_id a.id d.appeals ≡ false
    → find? (is_spent_on a.target_type a.target_id a.appellant_user_id) d.appeals ≡ none
    → is_spent_on a.target_type a.target_id a.appellant_user_id a ≡ true
    → IsSound (insert_appeal a d)
unfolding appeal_row_id
IsSound-insert_appeal a d v new none_spent own =
    let p = is_spent_on a.target_type a.target_id a.appellant_user_id in
    let zero = find?-eq_none-count_where p d.appeals none_spent in
    let free : refuses_appeal a d.appeals ≡ false = not_refused a d.appeals zero in
    subst IsSound (sym (insert_appeal-ok a d free)) (record {
      valid = record {
        ids = (new, v.ids);
        one = λ t id user. one_more t id user a d.appeals zero own (v.one t id user);
      };
      answered = λ w. cc;
    })

-- The write of one row that was read, in the place of it.
pub IsSound-save_appeal :
    (a a' : Appeal) (id : ℕ) (d : Desk)
    → AppealsValid d.appeals
    → find? (λ b. b.id == id) d.appeals ≡ some a
    → a'.id ≡ a.id
    → ((t : TargetType) (n user : ℕ)
        → is_spent_on t n user a' ≡ true
        → is_spent_on t n user a ≡ true)
    → refuses_appeal a' d.appeals ≡ false
    → IsSound (save_appeal a' d)
unfolding appeal_row_id
IsSound-save_appeal a a' id d v found same_id fewer free =
    subst IsSound (sym (save_appeal-ok a' d free)) (record {
      valid = record {
        ids = HasDistinctIds-save_row appeal_row_id a' d.appeals v.ids;
        one = λ t n user.
            let counted =
              count_where-save_row appeal_row_id (is_spent_on t n user) (λ b. b.id == id) a a'
                d.appeals v.ids found same_id in
            ground (arith, counted, v.one t n user, fewer t n user);
      };
      answered = λ w. cc;
    })

pub IsSound-or_raise :
    {A : Type 0} (o : Option A) (m : String) (d : Desk)
    → AppealsValid d.appeals
    → IsSound (or_raise o (not_found m) d)
IsSound-or_raise none m d v = record { valid = v; answered = λ w. cc }
IsSound-or_raise (some x) m d v = record { valid = v; answered = λ w. cc }

IsSound-find_moderatable :
    (b : Bool) (t : TargetType) (id : ℕ) (d : Desk)
    → AppealsValid d.appeals
    → IsSound (find_moderatable b t id d)
unfolding find_moderatable
IsSound-find_moderatable true t id d v = record { valid = v; answered = λ w. cc }
IsSound-find_moderatable false t id d v = record { valid = v; answered = λ w. cc }

pub IsSound-find :
    (t : TargetType) (id : ℕ) (d : Desk) → AppealsValid d.appeals → IsSound (find t id d)
unfolding find
IsSound-find t id d v = IsSound-find_moderatable (is_moderatable t) t id d v

IsSound-record_action :
    (env : Env) (t : TargetType) (id : ℕ) (kind : ActionKind) (actor : ℕ) (reason : Option Reason)
    (message : Option String) (d : Desk)
    → AppealsValid d.appeals
    → IsSound (record_action env t id kind actor reason message d)
unfolding record_action
IsSound-record_action env t id kind actor reason message d v =
    elim (Bool-cases (env.stores (new_entry env t id kind actor reason message))) [
      | inl stored ↦ rw stored (record { valid = v; answered = λ w. cc })
      | inr refused ↦ rw refused (record { valid = v; answered = λ w. cc })
    ]

IsSound-act :
    (env : Env) (dto : ModerateContentDto) (actor : ℕ) (kind : ActionKind) (c : Content)
    (target : Target) (d : Desk)
    → AppealsValid d.appeals
    → IsSound (act env dto actor kind c target d)
unfolding act save notify save_content
IsSound-act env dto actor kind c target d v =
    let t = dto.target_type in
    IsSound-bind (record_action env t dto.target_id kind actor dto.reason_code (some dto.message))
      (λ entry. modify (notify env (notice_of dto kind target)) >> pure entry) (save_content t c d)
      (IsSound-record_action env t dto.target_id kind actor dto.reason_code (some dto.message)
        (save_content t c d) v)
      (λ entry d' _ v'. record { valid = v'; answered = λ w. cc })

IsSound-restore_target :
    (env : Env) (dto : ModerateContentDto) (actor : ℕ) (target : Target) (d : Desk)
    → AppealsValid d.appeals
    → IsSound (restore_target env dto actor target d)
unfolding restore_target
IsSound-restore_target env dto actor target d v =
    let c = restored_content env actor target.content in
    IsSound-raise_if (not (is_removed target.content.moderation_status))
      "That content has not been removed." (λ _. act env dto actor restoration c target) d v
      (λ _. IsSound-act env dto actor restoration c target d v)

IsSound-restore :
    (env : Env) (dto : ModerateContentDto) (actor : ℕ) (d : Desk)
    → AppealsValid d.appeals
    → IsSound (restore env dto actor d)
unfolding restore find_or_fail
IsSound-restore env dto actor d v =
    let missing : String = "That content could not be found." in
    IsSound-bind (find_or_fail dto.target_type dto.target_id) (restore_target env dto actor) d
      (IsSound-bind (find dto.target_type dto.target_id) (λ o. or_raise o (not_found missing)) d
        (IsSound-find dto.target_type dto.target_id d v)
        (λ o d' _ v'. IsSound-or_raise o missing d' v'))
      (λ target d' _ v'. IsSound-restore_target env dto actor target d' v')

IsSound-restore_if :
    (env : Env) (dto : DecideAppealDto) (actor : ℕ) (a : Appeal) (b : Bool) (d : Desk)
    → AppealsValid d.appeals
    → IsSound (restore_if env dto actor a b d)
unfolding restore_if
IsSound-restore_if env dto actor a true d v =
    IsSound-bind (restore env (restoring dto a) actor) (λ _. pure tt) d
      (IsSound-restore env (restoring dto a) actor d v)
      (λ _ d' _ v'. record { valid = v'; answered = λ w. cc })
IsSound-restore_if env dto actor a false d v = record { valid = v; answered = λ w. cc }

pub IsSound-carry_out :
    (env : Env) (dto : DecideAppealDto) (actor : ℕ) (a : Appeal) (d : Desk)
    → AppealsValid d.appeals
    → IsSound (carry_out env dto actor a d)
unfolding carry_out notify
IsSound-carry_out env dto actor a d v =
    IsSound-bind (restore_if env dto actor a dto.uphold)
      (λ _.
        record_action env a.target_type a.target_id (decision_kind dto.uphold) actor none
          dto.review_notes
        >> (modify (notify env (decision_notice dto a)) >> pure a))
      d (IsSound-restore_if env dto actor a dto.uphold d v)
      (λ _ d' _ v'.
        IsSound-bind
          (record_action env a.target_type a.target_id (decision_kind dto.uphold) actor none
            dto.review_notes)
          (λ _. modify (notify env (decision_notice dto a)) >> pure a) d'
          (IsSound-record_action env a.target_type a.target_id (decision_kind dto.uphold) actor none
            dto.review_notes d' v')
          (λ _ d'' _ v''. record { valid = v''; answered = λ w. cc }))
