-- ===== src/Storytime/Review/Calls.antt =====
-- The calls on content and on appeals, each of which extends the audit.
use mathlib.Core.Path.{subst}
use sto_info_backend.Base.{
  ℕ, ◌≡◌, refl, sym, ap, ◌∙◌, String, Bool, true, false, not, Bool-cases, inl, inr, arith, Option,
  none, some, [], ◌∷◌, ◌==◌, ok, Error, Action, raise_if, gets, ◌>>=◌, ◌>>◌, or_raise, bad_request,
  not_found, forbidden, bind-inversion,
}
use sto_info_backend.Storytime.Review.Data.{
  Reason, TargetType, ActionKind, removal, restoration, withdrawn, Content, Appeal, Notice, Desk,
  Env, ActionEntry, is_removed, is_submitted, save_appeal,
}
use sto_info_backend.Storytime.Review.Targets.{
  Target, is_moderatable, find, find_moderatable, lookup_target, save_content,
}
use sto_info_backend.Storytime.Review.Acts.{
  ModerateContentDto, new_entry, record_action, notify, find_or_fail, removed_content,
  restored_content, notice_of, act, remove_target, remove, restore_target, restore,
}
use sto_info_backend.Storytime.Review.Appeals.{
  CreateAppealDto, create_about, create_appeal, spent_appeal, unless_spent, withdraw_found,
  withdraw, find_appeal, new_appeal,
}
use sto_info_backend.Storytime.Review.Recording.{acted, act-run}
use sto_info_backend.Storytime.Review.Contents.{lookup_target-id, lookup_target-moderatable}
use sto_info_backend.Storytime.Review.Audit.{
  IsAudited-grown, IsAudited-acted, is_gap-entered, is_gap, is_act, agrees,
}
use sto_info_backend.Storytime.Review.Trail.{
  Extends, Extends-refl, Extends-trans, Extends-bind, Extends-same, or_raise-same, Extends-raise_if,
  Extends-beside, IsBeside-refl, insert_appeal-Extends, save_appeal-Extends,
}

ok-injective : {A : Type 0} {a b : A} → ok a ≡ ok b → a ≡ b
ok-injective h = cc

-- An environment in which the database takes every entry of the audit.
abbrev pub StoresAll : Env → Type 0
StoresAll env = (e : ActionEntry) → env.stores e ≡ true

pub record_action-Extends :
    (env : Env) (t : TargetType) (id : ℕ) (kind : ActionKind) (actor : ℕ) (reason : Option Reason)
    (message : Option String) (d : Desk)
    → is_act kind ≡ false
    → Extends d (record_action env t id kind actor reason message d).1
unfolding record_action new_entry
record_action-Extends env t id kind actor reason message d other =
    let e = new_entry env t id kind actor reason message in
    elim (Bool-cases (env.stores e)) [
      | inl stored ↦
          rw stored (record { grows = (e ∷ [], refl); audits = IsAudited-grown e d other })
      | inr refused ↦ rw refused (Extends-refl d)
    ]

pub notify-Extends : (env : Env) (n : Notice) (d : Desk) → Extends d (notify env n d)
unfolding notify
notify-Extends env n d = Extends-beside d _ (IsBeside-refl d d.appeals d.reports _)

find_moderatable-same :
    (b : Bool) (t : TargetType) (id : ℕ) (d : Desk) → (find_moderatable b t id d).1 ≡ d
unfolding find_moderatable
find_moderatable-same true t id d = refl
find_moderatable-same false t id d = refl

pub find-same : (t : TargetType) (id : ℕ) (d : Desk) → (find t id d).1 ≡ d
unfolding find
find-same t id d = find_moderatable-same (is_moderatable t) t id d

find_moderatable-inversion :
    (b : Bool) (t : TargetType) (id : ℕ) (d d' : Desk) (o : Option Target)
    → find_moderatable b t id d ≡ (ok o, d')
    → (lookup_target t id d ≡ o) × (d ≡ d')
unfolding find_moderatable
find_moderatable-inversion true t id d d' o h = (ok-injective (ap (λ r. r.0) h), ap (λ r. r.1) h)
find_moderatable-inversion false t id d d' o h = cc

or_raise-inversion :
    {A : Type 0} (o : Option A) (e : Error) (d d' : Desk) (a : A)
    → or_raise o e d ≡ (ok a, d')
    → (o ≡ some a) × (d ≡ d')
or_raise-inversion none e d d' a h = cc
or_raise-inversion (some x) e d d' a h = (ap some (ok-injective (ap (λ r. r.0) h)), ap (λ r. r.1) h)

-- The target that is found is there, of the identifier that was asked for.
find_or_fail-inversion :
    (t : TargetType) (id : ℕ) (d d' : Desk) (target : Target)
    → find_or_fail t id d ≡ (ok target, d')
    → (is_moderatable t ≡ true) × (target.content.id ≡ id)
unfolding find_or_fail find
find_or_fail-inversion t id d d' target h =
    let e = not_found "That content could not be found." in
    let (o, d1, found, rest) =
      bind-inversion (find_moderatable (is_moderatable t) t id) (λ o. or_raise o e) d h in
    let (look, same) = find_moderatable-inversion (is_moderatable t) t id d d1 o found in
    let (some_target, same') = or_raise-inversion o e d1 d' target rest in
    (
      lookup_target-moderatable t id d target (look ∙ some_target),
      lookup_target-id t id d target (look ∙ some_target),
    )

find_or_fail-same : (t : TargetType) (id : ℕ) (d : Desk) → Extends d (find_or_fail t id d).1
unfolding find_or_fail
find_or_fail-same t id d =
    Extends-bind (find t id) (λ o. or_raise o (not_found "That content could not be found.")) d
      (Extends-same d (find t id d).1 (find-same t id d))
      (λ o d' _.
        Extends-same d' _ (or_raise-same o (not_found "That content could not be found.") d'))

-- An act on content that its own entry accounts for.
act-Extends :
    (env : Env) (dto : ModerateContentDto) (actor : ℕ) (kind : ActionKind) (c : Content)
    (target : Target) (d : Desk)
    → StoresAll env
    → is_moderatable dto.target_type ≡ true
    → dto.target_id ≡ c.id
    → is_gap dto.target_type
        (new_entry env dto.target_type dto.target_id kind actor dto.reason_code (some dto.message)
          ∷ d.actions)
        c
      ≡ false
    → Extends d (act env dto actor kind c target d).1
unfolding acted new_entry
act-Extends env dto actor kind c target d stores m same g =
    let e =
      new_entry env dto.target_type dto.target_id kind actor dto.reason_code (some dto.message) in
    let saved : Desk = record (save_content dto.target_type c d) { actions = e ∷ d.actions } in
    subst (λ r. Extends d r.1) (sym (act-run env dto actor kind c target d (stores e)))
      (Extends-trans d saved (notify env (notice_of dto kind target) saved)
        (record {
          grows = (e ∷ [], refl);
          audits = λ v. IsAudited-acted e c d same g v dto.target_type refl m;
        })
        (notify-Extends env (notice_of dto kind target) saved))

remove_target-Extends :
    (env : Env) (dto : ModerateContentDto) (actor : ℕ) (target : Target) (d : Desk)
    → StoresAll env
    → is_moderatable dto.target_type ≡ true
    → target.content.id ≡ dto.target_id
    → Extends d (remove_target env dto actor target d).1
unfolding remove_target removed_content new_entry agrees
remove_target-Extends env dto actor target d stores m same =
    let c = removed_content env dto actor target.content in
    let e =
      new_entry env dto.target_type dto.target_id removal actor dto.reason_code
        (some dto.message) in
    Extends-raise_if (is_removed target.content.moderation_status)
      (bad_request "That content has already been removed.")
      (λ _. act env dto actor removal c target) d
      (act-Extends env dto actor removal c target d stores m (sym same)
        (is_gap-entered e d.actions c (sym same) refl (ground arith)))

restore_target-Extends :
    (env : Env) (dto : ModerateContentDto) (actor : ℕ) (target : Target) (d : Desk)
    → StoresAll env
    → is_moderatable dto.target_type ≡ true
    → target.content.id ≡ dto.target_id
    → Extends d (restore_target env dto actor target d).1
unfolding restore_target restored_content new_entry agrees
restore_target-Extends env dto actor target d stores m same =
    let c = restored_content env actor target.content in
    let e =
      new_entry env dto.target_type dto.target_id restoration actor dto.reason_code
        (some dto.message) in
    Extends-raise_if (not (is_removed target.content.moderation_status))
      (bad_request "That content has not been removed.")
      (λ _. act env dto actor restoration c target) d
      (act-Extends env dto actor restoration c target d stores m (sym same)
        (is_gap-entered e d.actions c (sym same) refl refl))

pub remove-Extends :
    (env : Env) (dto : ModerateContentDto) (actor : ℕ) (d : Desk)
    → StoresAll env
    → Extends d (remove env dto actor d).1
unfolding remove
remove-Extends env dto actor d stores =
    Extends-bind (find_or_fail dto.target_type dto.target_id) (remove_target env dto actor) d
      (find_or_fail-same dto.target_type dto.target_id d)
      (λ target d' h.
        let (m, same) = find_or_fail-inversion dto.target_type dto.target_id d d' target h in
        remove_target-Extends env dto actor target d' stores m same)

pub restore-Extends :
    (env : Env) (dto : ModerateContentDto) (actor : ℕ) (d : Desk)
    → StoresAll env
    → Extends d (restore env dto actor d).1
unfolding restore
restore-Extends env dto actor d stores =
    Extends-bind (find_or_fail dto.target_type dto.target_id) (restore_target env dto actor) d
      (find_or_fail-same dto.target_type dto.target_id d)
      (λ target d' h.
        let (m, same) = find_or_fail-inversion dto.target_type dto.target_id d d' target h in
        restore_target-Extends env dto actor target d' stores m same)

unless_spent-Extends :
    (env : Env) (dto : CreateAppealDto) (user : ℕ) (o : Option Appeal) (d : Desk)
    → Extends d (unless_spent env dto user o d).1
unfolding unless_spent
unless_spent-Extends env dto user none d = insert_appeal-Extends (new_appeal env dto user) d
unless_spent-Extends env dto user (some a) d = Extends-refl d

create_about-Extends :
    (env : Env) (dto : CreateAppealDto) (user : ℕ) (target : Target) (d : Desk)
    → Extends d (create_about env dto user target d).1
unfolding create_about
create_about-Extends env dto user target d =
    let rest : Action Desk Appeal = gets (spent_appeal dto user) >>= unless_spent env dto user in
    Extends-raise_if (not (target.owner_user_id == user))
      (forbidden "Only the person whose work was removed may appeal.")
      (λ _.
        raise_if (not (is_removed target.content.moderation_status))
          (bad_request "That content has not been removed.")
        >> rest)
      d
      (Extends-raise_if (not (is_removed target.content.moderation_status))
        (bad_request "That content has not been removed.") (λ _. rest) d
        (unless_spent-Extends env dto user (spent_appeal dto user d) d))

pub create_appeal-Extends :
    (env : Env) (dto : CreateAppealDto) (user : ℕ) (d : Desk)
    → Extends d (create_appeal env dto user d).1
unfolding create_appeal
create_appeal-Extends env dto user d =
    Extends-bind (find dto.target_type dto.target_id)
      (λ o. or_raise o (not_found "That content could not be found.") >>= create_about env dto user)
      d (Extends-same d _ (find-same dto.target_type dto.target_id d))
      (λ o d' _.
        Extends-bind (or_raise o (not_found "That content could not be found."))
          (create_about env dto user) d'
          (Extends-same d' _ (or_raise-same o (not_found "That content could not be found.") d'))
          (λ target d'' _. create_about-Extends env dto user target d''))

withdraw_found-Extends :
    (user : ℕ) (o : Option Appeal) (d : Desk) → Extends d (withdraw_found user o d).1
unfolding withdraw_found
withdraw_found-Extends user none d = Extends-refl d
withdraw_found-Extends user (some a) d =
    let rest = save_appeal (record a { status = withdrawn }) in
    Extends-raise_if (not (a.appellant_user_id == user))
      (forbidden "That appeal is not yours to withdraw.")
      (λ _.
        raise_if (not (is_submitted a.status)) (bad_request "That appeal has already been decided.")
        >> rest)
      d
      (Extends-raise_if (not (is_submitted a.status))
        (bad_request "That appeal has already been decided.") (λ _. rest) d
        (save_appeal-Extends (record a { status = withdrawn }) d))

pub withdraw-Extends : (id user : ℕ) (d : Desk) → Extends d (withdraw id user d).1
unfolding withdraw
withdraw-Extends id user d = withdraw_found-Extends user (find_appeal id d) d
