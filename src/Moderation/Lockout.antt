-- ===== src/Moderation/Lockout.antt =====
-- What disabling an account leaves behind, and whom it can never reach.
use sto_info_backend.Base.{
  ℕ, ◌≡◌, ◌≢◌, refl, sym, ap, ◌∙◌, inl, inr, String, Bool, true, false, Option, some, List, [], ◌∷◌,
  arith, ◌==◌, Option-cases, ok, bind-ok,
}
use mathlib.Core.Path.{subst}
use sto_info_backend.Store.{keep, find?, any, count_where, update_where, save_row, HasDistinctIds}
use sto_info_backend.Store.Laws.{find?-holds, find?-save_row_narrow, count_where-update_where_zero}
use sto_info_backend.Store.Keys.{update_where-save_row, keep-update_where}
use sto_info_backend.Users.{is_admin, User, is_user}
use sto_info_backend.Sessions.{revoke_all_tokens_for_user}
use sto_info_backend.Sessions.Revocation.{revoke_all_tokens_for_user-clears}
use sto_info_backend.Community.Data.{Profile, Env as CommunityEnv, Db as CommunityDb}
use sto_info_backend.Community.Members.{find_active, is_active}
use sto_info_backend.Moderation.Data.{UserReport, Site, account_id, join_user, save_user}
use sto_info_backend.Moderation.Reports.{is_unresolved_about, action_row, action_reports_against}
use sto_info_backend.Moderation.Accounts.{
  ModeratedUser, to_moderated_user, require_user, find_user, require_moderatable_user, disabled_row,
  enabled_row, tear_down_sessions, lock_out, disable_user, restore, enable_user,
}

-- What holds of a user who is locked out.
pub record IsLockedOut (user_id : ℕ) (site : Site) : Type 0 where
  pub account :
      (u : User) × (find? (is_user user_id) site.users ≡ some u) × (u.is_account_disabled ≡ true)
  pub sessions : any (λ t. t.user_id == user_id) site.tokens ≡ false
  pub reports : count_where (is_unresolved_about user_id) site.reports ≡ 0
  pub hidden :
      (env : CommunityEnv) (username : String) (p : Profile)
      → find_active env username site.community ≡ some p
      → (p.user_id == user_id) ≡ false

find?-joined :
    (q : Profile → Bool) (n : ℕ) (f : Profile → Profile)
    → ((x : Profile) → x.user_id ≡ n → q (f x) ≡ false)
    → (ps : List Profile) (p : Profile) → find? q (update_where (λ x. x.user_id == n) f ps) ≡ some p
    → (p.user_id == n) ≡ false
unfolding find? update_where
find?-joined q n f h [] p e = cc
find?-joined q n f h (x ∷ xs) p e = ground (arith, h x, find?-joined q n f h xs p)

-- Nobody finds a member whose user is disabled.
find_active-joined :
    (env : CommunityEnv) (username : String) (u : User) (db : CommunityDb) (p : Profile)
    → u.is_account_disabled ≡ true
    → find_active env username (record db { profiles = join_user u db.profiles }) ≡ some p
    → (p.user_id == u.id) ≡ false
unfolding find_active join_user is_active
find_active-joined env username u db p off e =
    find?-joined _ u.id (λ x. record x { user_is_account_disabled = u.is_account_disabled })
      (λ x _. ground (arith, off)) db.profiles p e

no_unresolved :
    (env : CommunityEnv) (admin_user_id n : ℕ) (rs : List UserReport)
    → count_where
        (is_unresolved_about n)
        (update_where (is_unresolved_about n) (action_row env admin_user_id) rs)
      ≡ 0
unfolding is_unresolved_about action_row
no_unresolved env admin_user_id n rs =
    count_where-update_where_zero (is_unresolved_about n) (is_unresolved_about n)
      (action_row env admin_user_id) (λ x e. e) (λ x e. ground arith) rs

-- The site after the writes of `disableUser`.
abbrev locked : CommunityEnv → ℕ → Option String → User → Site → Site
locked env admin_user_id reason u site =
    let u' = disabled_row env admin_user_id reason u in
    record {
      users = save_row account_id u' site.users;
      reports = update_where (is_unresolved_about u.id) (action_row env admin_user_id) site.reports;
      tokens = (revoke_all_tokens_for_user (some u.id) site.tokens).1;
      community = record site.community { profiles = join_user u' site.community.profiles };
    }

lock_out-run :
    (env : CommunityEnv) (admin_user_id : ℕ) (reason : Option String) (u : User) (site : Site)
    → lock_out env admin_user_id reason u site
      ≡ find_user u.id (locked env admin_user_id reason u site)
unfolding lock_out save_user tear_down_sessions action_reports_against disabled_row
lock_out-run env admin_user_id reason u site = refl

find_user-ok :
    (user_id : ℕ) (site : Site) (u : User)
    → find? (is_user user_id) site.users ≡ some u
    → find_user user_id site ≡ (ok (to_moderated_user u site), site)
unfolding find_user require_user
find_user-ok user_id site u h = ground (arith, h)

locked-account :
    (env : CommunityEnv) (admin_user_id : ℕ) (reason : Option String) (u : User) (site : Site)
    → HasDistinctIds account_id site.users
    → find? (is_user u.id) site.users ≡ some u
    → find? (is_user u.id) (locked env admin_user_id reason u site).users
      ≡ some (disabled_row env admin_user_id reason u)
unfolding disabled_row account_id is_user
locked-account env admin_user_id reason u site d found =
    find?-save_row_narrow account_id (is_user u.id) (is_user u.id) u
      (disabled_row env admin_user_id reason u) site.users d found refl (λ x e. e)
      (ground (arith, find?-holds (is_user u.id) site.users u found))

require_moderatable_user-ok :
    (user_id admin_user_id : ℕ) (site : Site) (u : User)
    → find? (is_user user_id) site.users ≡ some u
    → is_admin u.role ≡ false
    → user_id ≢ admin_user_id
    → require_moderatable_user user_id admin_user_id site ≡ (ok u, site)
unfolding require_moderatable_user require_user
require_moderatable_user-ok user_id admin_user_id site u found plain apart =
    ground (arith, found, plain, apart)

lock_out-IsLockedOut :
    (env : CommunityEnv) (admin_user_id : ℕ) (reason : Option String) (u : User) (site : Site)
    → HasDistinctIds account_id site.users
    → find? (is_user u.id) site.users ≡ some u
    → IsLockedOut u.id (locked env admin_user_id reason u site)
unfolding disabled_row
lock_out-IsLockedOut env admin_user_id reason u site d found = record {
  account = (_, locked-account env admin_user_id reason u site d found, refl);
  sessions = (revoke_all_tokens_for_user-clears u.id site.tokens).1;
  reports = no_unresolved env admin_user_id u.id site.reports;
  hidden = λ env' username p e.
      find_active-joined env' username (disabled_row env admin_user_id reason u) site.community p
        refl e;
}

-- Where no two users have one id, `disableUser` of a user who exists, is not an administrator and
-- is not the caller succeeds, and locks the user out: the account is disabled, no refresh token is
-- left, no report about the user waits for a decision, and no member can find the user by name any
-- more.
pub disable_user-IsLockedOut :
    (env : CommunityEnv) (user_id admin_user_id : ℕ) (reason : Option String) (site : Site)
    (u : User)
    → HasDistinctIds account_id site.users
    → find? (is_user user_id) site.users ≡ some u
    → is_admin u.role ≡ false
    → user_id ≢ admin_user_id
    → (m : ModeratedUser) × (site' : Site) × (disable_user env user_id admin_user_id reason site
        ≡ (ok m, site'))
      × IsLockedOut user_id site'
unfolding disable_user is_user
disable_user-IsLockedOut env user_id admin_user_id reason site u d found plain apart =
    let is_u = find?-holds (is_user user_id) site.users u found in
    let e : u.id ≡ user_id = ground (arith, is_u) in
    let found' : find? (is_user u.id) site.users ≡ some u =
      subst (λ n. find? (is_user n) site.users ≡ some u) (sym e) found in
    let site' = locked env admin_user_id reason u site in
    let run =
      bind-ok (require_moderatable_user user_id admin_user_id) (lock_out env admin_user_id reason)
        site (require_moderatable_user-ok user_id admin_user_id site u found plain apart) in
    let answer =
      find_user-ok u.id site' _ (locked-account env admin_user_id reason u site d found') in
    (
      _,
      site',
      run ∙ lock_out-run env admin_user_id reason u site ∙ answer,
      subst (λ n. IsLockedOut n site') e
          (lock_out-IsLockedOut env admin_user_id reason u site d found'),
    )

-- The administrators, in the order of the table.
abbrev pub admins_of : Site → List User
admins_of site = keep (λ u. is_admin u.role) site.users

find_user-state : (user_id : ℕ) (site : Site) → (find_user user_id site).1 ≡ site
unfolding find_user require_user
find_user-state user_id site = elim (Option-cases (find? (is_user user_id) site.users)) [
  | inl h ↦ ground (arith, h)
  | inr (u, h) ↦ ground (arith, h)
]

saved-admins :
    (f : User → User) (user_id : ℕ) (u : User) (us : List User)
    → ((x : User) → (f x).id ≡ x.id)
    → ((x : User) → is_admin (f x).role ≡ is_admin x.role)
    → HasDistinctIds account_id us
    → find? (is_user user_id) us ≡ some u
    → is_admin u.role ≡ false
    → keep (λ x. is_admin x.role) (save_row account_id (f u) us) ≡ keep (λ x. is_admin x.role) us
unfolding account_id
saved-admins f user_id u us same_id same_role d found plain =
    rw (← update_where-save_row account_id (is_user user_id) f u us d found (same_id u)) (
      keep-update_where account_id (λ x. is_admin x.role) (is_user user_id) f u us d found plain
        (same_role u ∙ plain))

lock_out-admins :
    (env : CommunityEnv) (admin_user_id : ℕ) (reason : Option String) (user_id : ℕ) (u : User)
    (site : Site)
    → HasDistinctIds account_id site.users
    → find? (is_user user_id) site.users ≡ some u
    → is_admin u.role ≡ false
    → admins_of (lock_out env admin_user_id reason u site).1 ≡ admins_of site
unfolding disabled_row
lock_out-admins env admin_user_id reason user_id u site d found plain =
    ap (λ r. admins_of r.1) (lock_out-run env admin_user_id reason u site)
    ∙ ap admins_of (find_user-state u.id (locked env admin_user_id reason u site))
    ∙ saved-admins (disabled_row env admin_user_id reason) user_id u site.users (λ x. refl)
        (λ x. refl) d found plain

restore-admins :
    (user_id : ℕ) (u : User) (site : Site)
    → HasDistinctIds account_id site.users
    → find? (is_user user_id) site.users ≡ some u
    → is_admin u.role ≡ false
    → admins_of (restore u site).1 ≡ admins_of site
unfolding restore save_user enabled_row
restore-admins user_id u site d found plain =
    ap admins_of (find_user-state u.id _)
    ∙ saved-admins enabled_row user_id u site.users (λ x. refl) (λ x. refl) d found plain

-- Where no two users have one id, whoever calls `disableUser` or `enableUser`, on whomever, and
-- whatever they answer: the administrators are the same users as before, with the same columns.
pub disable_user-admins_of :
    (env : CommunityEnv) (user_id admin_user_id : ℕ) (reason : Option String) (site : Site)
    → HasDistinctIds account_id site.users
    → (admins_of (disable_user env user_id admin_user_id reason site).1 ≡ admins_of site)
      × (admins_of (enable_user user_id admin_user_id site).1 ≡ admins_of site)
unfolding disable_user enable_user require_moderatable_user require_user
disable_user-admins_of env user_id admin_user_id reason site d =
    elim (Option-cases (find? (is_user user_id) site.users)) [
      | inl h ↦ (ground (arith, h), ground (arith, h))
      | inr (u, h) ↦ (
        ground (arith, h, lock_out-admins env admin_user_id reason user_id u site d h),
        ground (arith, h, restore-admins user_id u site d h),
      )
    ]
