-- ===== src/Storytime/Review/Sequences.antt =====
-- The audit after any calls, in any order.
use sto_info_backend.Base.{
  ℕ, ◌≡◌, Bool, true, false, not, refl, Option, none, some, List, [], ◌∷◌, ◌++◌, Action, pure,
  modify, gets, ◌>>=◌, ◌>>◌, or_raise, is_none, bad_request, not_found,
}
use sto_info_backend.Storytime.Review.Data.{
  report_resolved, TargetType, ActionEntry, Appeal, Report, Desk, Env, is_submitted, save_appeal,
  save_story_report,
}
use sto_info_backend.Storytime.Review.Targets.{is_moderatable, find}
use sto_info_backend.Storytime.Review.Acts.{
  ModerateContentDto, record_action, notify, remove, restore,
}
use sto_info_backend.Storytime.Review.Appeals.{
  CreateAppealDto, DecideAppealDto, create_appeal, withdraw, find_appeal, decided_appeal, restoring,
  restore_if, decision_kind, decision_notice, carry_out, decide_found, decide,
}
use sto_info_backend.Storytime.Review.Reports.{
  CreateReportDto, ResolveReportDto, assert_reportable, assert_reportable_if, unless_live,
  live_report, new_report, create_report, find_report, resolved_report, record_resolution,
  resolve_found, resolve,
}
use sto_info_backend.Storytime.Review.Audit.{IsAudited, is_act}
use sto_info_backend.Storytime.Review.Trail.{
  Extends, Extends-refl, Extends-trans, Extends-bind, Extends-same, or_raise-same, Extends-raise_if,
  save_appeal-Extends, insert_report-Extends, save_report-Extends,
}
use sto_info_backend.Storytime.Review.Calls.{
  StoresAll, record_action-Extends, notify-Extends, find-same, remove-Extends, restore-Extends,
  create_appeal-Extends, withdraw-Extends,
}

restore_if-Extends :
    (env : Env) (dto : DecideAppealDto) (actor : ℕ) (a : Appeal) (b : Bool) (d : Desk)
    → StoresAll env
    → Extends d (restore_if env dto actor a b d).1
unfolding restore_if
restore_if-Extends env dto actor a true d stores =
    Extends-bind (restore env (restoring dto a) actor) (λ _. pure tt) d
      (restore-Extends env (restoring dto a) actor d stores) (λ _ d' _. Extends-refl d')
restore_if-Extends env dto actor a false d stores = Extends-refl d

decision_kind-is_act : (b : Bool) → is_act (decision_kind b) ≡ false
decision_kind-is_act true = refl
decision_kind-is_act false = refl

carry_out-Extends :
    (env : Env) (dto : DecideAppealDto) (actor : ℕ) (a : Appeal) (d : Desk)
    → StoresAll env
    → Extends d (carry_out env dto actor a d).1
unfolding carry_out
carry_out-Extends env dto actor a d stores =
    let entry =
      record_action env a.target_type a.target_id (decision_kind dto.uphold) actor none
        dto.review_notes in
    let rest : Action Desk Appeal = modify (notify env (decision_notice dto a)) >> pure a in
    Extends-bind (restore_if env dto actor a dto.uphold) (λ _. entry >> rest) d
      (restore_if-Extends env dto actor a dto.uphold d stores)
      (λ _ d' _.
        Extends-bind entry (λ _. rest) d'
          (record_action-Extends env a.target_type a.target_id (decision_kind dto.uphold) actor none
            dto.review_notes d' (decision_kind-is_act dto.uphold))
          (λ _ d'' _. notify-Extends env (decision_notice dto a) d''))

decide_found-Extends :
    (env : Env) (dto : DecideAppealDto) (actor : ℕ) (o : Option Appeal) (d : Desk)
    → StoresAll env
    → Extends d (decide_found env dto actor o d).1
unfolding decide_found
decide_found-Extends env dto actor none d stores = Extends-refl d
decide_found-Extends env dto actor (some a) d stores =
    Extends-raise_if (not (is_submitted a.status))
      (bad_request "That appeal has already been answered or withdrawn.")
      (λ _. save_appeal (decided_appeal env dto actor a) >>= carry_out env dto actor) d
      (Extends-bind (save_appeal (decided_appeal env dto actor a)) (carry_out env dto actor) d
        (save_appeal-Extends (decided_appeal env dto actor a) d)
        (λ x d' _. carry_out-Extends env dto actor x d' stores))

decide-Extends :
    (env : Env) (id : ℕ) (dto : DecideAppealDto) (actor : ℕ) (d : Desk)
    → StoresAll env
    → Extends d (decide env id dto actor d).1
unfolding decide
decide-Extends env id dto actor d stores =
    decide_found-Extends env dto actor (find_appeal id d) d stores

assert_reportable_if-Extends :
    (b : Bool) (t : TargetType) (id : ℕ) (d : Desk) → Extends d (assert_reportable_if b t id d).1
unfolding assert_reportable_if
assert_reportable_if-Extends false t id d = Extends-refl d
assert_reportable_if-Extends true t id d =
    let e = not_found "That content could not be found." in
    Extends-bind (find t id) (λ o. or_raise o e >> pure tt) d (Extends-same d _ (find-same t id d))
      (λ o d' _.
        Extends-bind (or_raise o e) (λ _. pure tt) d' (Extends-same d' _ (or_raise-same o e d'))
          (λ _ d'' _. Extends-refl d''))

unless_live-Extends :
    (env : Env) (dto : CreateReportDto) (user : ℕ) (o : Option Report) (d : Desk)
    → Extends d (unless_live env dto user o d).1
unfolding unless_live
unless_live-Extends env dto user none d = insert_report-Extends (new_report env dto user) d
unless_live-Extends env dto user (some r) d = Extends-refl d

create_report-Extends :
    (env : Env) (dto : CreateReportDto) (user : ℕ) (d : Desk)
    → Extends d (create_report env dto user d).1
unfolding create_report assert_reportable
create_report-Extends env dto user d =
    Extends-bind
      (assert_reportable_if (is_moderatable dto.target_type) dto.target_type dto.target_id)
      (λ _. gets (live_report dto user) >>= unless_live env dto user) d
      (assert_reportable_if-Extends (is_moderatable dto.target_type) dto.target_type dto.target_id
        d)
      (λ _ d' _. unless_live-Extends env dto user (live_report dto user d') d')

record_resolution-Extends :
    (env : Env) (dto : ResolveReportDto) (actor : ℕ) (r : Report) (b : Bool) (d : Desk)
    → Extends d (record_resolution env dto actor r b d).1
unfolding record_resolution
record_resolution-Extends env dto actor r true d = Extends-refl d
record_resolution-Extends env dto actor r false d =
    Extends-bind
      (record_action env r.target_type r.target_id report_resolved actor (some r.reason_code)
        dto.resolution)
      (λ _. pure tt) d
      (record_action-Extends env r.target_type r.target_id report_resolved actor
        (some r.reason_code) dto.resolution d refl)
      (λ _ d' _. Extends-refl d')

resolve_found-Extends :
    (env : Env) (dto : ResolveReportDto) (actor : ℕ) (o : Option Report) (d : Desk)
    → Extends d (resolve_found env dto actor o d).1
unfolding resolve_found
resolve_found-Extends env dto actor none d = Extends-refl d
resolve_found-Extends env dto actor (some r) d =
    Extends-bind (save_story_report (resolved_report env dto actor r))
      (λ x. record_resolution env dto actor x (is_none x.resolved_at) >> pure x) d
      (save_report-Extends (resolved_report env dto actor r) d)
      (λ x d' _.
        Extends-bind (record_resolution env dto actor x (is_none x.resolved_at)) (λ _. pure x) d'
          (record_resolution-Extends env dto actor x (is_none x.resolved_at) d')
          (λ _ d'' _. Extends-refl d''))

resolve-Extends :
    (env : Env) (id : ℕ) (dto : ResolveReportDto) (actor : ℕ) (d : Desk)
    → Extends d (resolve env id dto actor d).1
unfolding resolve
resolve-Extends env id dto actor d = resolve_found-Extends env dto actor (find_report id d) d

-- The calls that write.
pub data Call : Type 0 where
  removing restoring_content : ModerateContentDto → ℕ → Call
  appealing : CreateAppealDto → ℕ → Call
  withdrawing : ℕ → ℕ → Call
  deciding : ℕ → DecideAppealDto → ℕ → Call
  reporting : CreateReportDto → ℕ → Call
  resolving : ℕ → ResolveReportDto → ℕ → Call

-- The desk after a call, whether it returned or failed.
unfoldable pub perform : Env → Call → Desk → Desk
perform env (removing dto actor) d = (remove env dto actor d).1
perform env (restoring_content dto actor) d = (restore env dto actor d).1
perform env (appealing dto user) d = (create_appeal env dto user d).1
perform env (withdrawing id user) d = (withdraw id user d).1
perform env (deciding id dto actor) d = (decide env id dto actor d).1
perform env (reporting dto user) d = (create_report env dto user d).1
perform env (resolving id dto actor) d = (resolve env id dto actor d).1

-- The desk after calls in this order, each with what it meets outside the code.
unfoldable pub perform_all : List (Env × Call) → Desk → Desk
unfolding perform
perform_all [] d = d
perform_all ((env, c) ∷ cs) d = perform_all cs (perform env c d)

perform-Extends : (env : Env) (c : Call) (d : Desk) → StoresAll env → Extends d (perform env c d)
unfolding perform
perform-Extends env (removing dto actor) d stores = remove-Extends env dto actor d stores
perform-Extends env (restoring_content dto actor) d stores = restore-Extends env dto actor d stores
perform-Extends env (appealing dto user) d stores = create_appeal-Extends env dto user d
perform-Extends env (withdrawing id user) d stores = withdraw-Extends id user d
perform-Extends env (deciding id dto actor) d stores = decide-Extends env id dto actor d stores
perform-Extends env (reporting dto user) d stores = create_report-Extends env dto user d
perform-Extends env (resolving id dto actor) d stores = resolve-Extends env id dto actor d

abbrev pub AllStored : List (Env × Call) → Type 0
AllStored [] = Unit
AllStored ((env, c) ∷ cs) = StoresAll env × AllStored cs

perform_all-Extends :
    (cs : List (Env × Call)) (d : Desk) → AllStored cs → Extends d (perform_all cs d)
unfolding perform_all
perform_all-Extends [] d stored = Extends-refl d
perform_all-Extends ((env, c) ∷ cs) d stored =
    Extends-trans d (perform env c d) (perform_all cs (perform env c d))
      (perform-Extends env c d stored.0) (perform_all-Extends cs (perform env c d) stored.1)

-- As long as the database takes every entry of the audit, after any calls in any order, whether they return
-- or fail: the state of every Story, Arc, Chapter and Character is what the latest entry of a removal or
-- restoration of it says, removed by the actor of a removal, and else active, if that held before; and the
-- audit still ends in the entries that it held before.
pub perform_all-IsAudited :
    (cs : List (Env × Call)) (d : Desk)
    → AllStored cs
    → IsAudited d
    → IsAudited (perform_all cs d)
      × ((news : List ActionEntry) × ((perform_all cs d).actions ≡ news ++ d.actions))
perform_all-IsAudited cs d stored v =
    let e = perform_all-Extends cs d stored in (e.audits v, e.grows)
