-- ===== src/AccessControl/Roles.antt =====
-- Who is an administrator, and what the guard lets through.
use sto_info_backend.Base.{
  ℕ, ◌≡◌, refl, ap, ◌∙◌, inl, inr, Bool, true, false, ◌&&◌, Option, none, some, List, [], ◌∷◌,
  arith, if◌then◌else◌, Bool-cases, Option-cases, ok, err, bind-unchanged, forbidden,
}
use sto_info_backend.Store.{keep, find?, HasDistinctIds}
use sto_info_backend.Store.Laws.{find?-holds}
use sto_info_backend.Store.Keys.{keep-update_where}
use sto_info_backend.Users.{UserRole, is_admin, is_same_role, User, is_user, user_id_of}
use sto_info_backend.AccessControl.Data.{Db, Env}
use sto_info_backend.AccessControl.Resolve.{
  read_cache, resolve_permission_codes, get_permission_codes, holds_all, activate_for, can_activate,
}
use sto_info_backend.AccessControl.Rights.{may, resolve_permission_codes-may}
use sto_info_backend.AccessControl.Grants.{AccessValid, AccessValid-RightsValid}
use sto_info_backend.AccessControl.Answers.{fresh-codes, get_user_access_summary-users}
use sto_info_backend.AccessControl.Admin.{
  is_assignable, update_role, change_role, require_user, put_role, get_user_access_summary,
  set_user_role,
}

-- The administrators, in the order of the table.
unfoldable pub admins : Db → List User
admins db = keep (λ u. is_admin u.role) db.users

admins-users : (db db' : Db) → db'.users ≡ db.users → admins db' ≡ admins db
unfolding admins
admins-users db db' e = ap (keep (λ u. is_admin u.role)) e

change_role-admins :
    (db : Db) (user_id : ℕ) (role : UserRole) (u : User)
    → HasDistinctIds user_id_of db.users
    → find? (is_user user_id) db.users ≡ some u
    → is_admin u.role ≡ false
    → is_assignable role ≡ true
    → admins (change_role user_id role u db).1 ≡ admins db
unfolding change_role admins update_role is_assignable is_user user_id_of
change_role-admins db user_id role u d found plain assignable =
    let is_u = find?-holds (is_user user_id) db.users u found in
    let e : u.id ≡ user_id = ground (arith, is_u) in
    let same =
      keep-update_where user_id_of (λ x. is_admin x.role) (is_user user_id)
        (λ x. record x { role = role }) u db.users d found plain (ground (arith, assignable)) in
    elim (Bool-cases (is_same_role u.role role)) [ inl h ↦ rw h refl | inr h ↦ rw (h, ← e) same ]

put_role-admins :
    (db : Db) (user_id : ℕ) (role : UserRole) (acting : ℕ)
    → HasDistinctIds user_id_of db.users
    → admins (put_role user_id role acting db).1 ≡ admins db
unfolding put_role require_user
put_role-admins db user_id role acting d = elim (Option-cases (find? (is_user user_id) db.users)) [
  | inl h ↦ ground (arith, h)
  | inr (u, h) ↦ ground (arith, h, change_role-admins db user_id role u d h)
]

-- Where no two users have one id, whoever calls `setUserRole`, with whatever role and on whatever
-- user, and whatever it answers: the administrators are the same users as before, with the same
-- columns.
pub set_user_role-admins :
    (env : Env) (db : Db) (user_id : ℕ) (role : UserRole) (acting : ℕ)
    → HasDistinctIds user_id_of db.users
    → admins (set_user_role env user_id role acting db).1 ≡ admins db
unfolding set_user_role
set_user_role-admins env db user_id role acting d =
    bind-unchanged admins (put_role user_id role acting) (λ _. get_user_access_summary env user_id)
      db (λ _ db'. admins-users db' _ (get_user_access_summary-users env user_id db'))
    ∙ put_role-admins db user_id role acting d

-- Whether the user may do all that is required.
abbrev pub may_all : ℕ → ℕ → List ℕ → Db → Bool
may_all now u [] db = true
may_all now u (c ∷ cs) db = may now u c db && may_all now u cs db

-- Whether a request on these terms is to be let through.
abbrev pub is_cleared : ℕ → Option ℕ → List ℕ → Db → Bool
is_cleared now caller [] db = true
is_cleared now none (c ∷ cs) db = false
is_cleared now (some u) (c ∷ cs) db = may_all now u (c ∷ cs) db

holds_all-may_all :
    (now u : ℕ) (db : Db)
    → AccessValid db
    → (cs : List ℕ) → holds_all (resolve_permission_codes now u db) cs ≡ may_all now u cs db
unfolding holds_all
holds_all-may_all now u db v [] = refl
holds_all-may_all now u db v (c ∷ cs) =
    rw
      (
        resolve_permission_codes-may now u c db (AccessValid-RightsValid db v),
        holds_all-may_all now u db v cs,
      )
      refl

activate_for-answer :
    (env : Env) (u : ℕ) (required codes : List ℕ) (db : Db)
    → (get_permission_codes env u db).0 ≡ ok codes
    → (activate_for env (some u) required db).0
      ≡ (if holds_all codes required then ok true else err (forbidden "Insufficient permissions"))
unfolding activate_for
activate_for-answer env u required codes db h = ground (arith, h)

-- Where the unique indexes hold, `PermissionsGuard.canActivate`, in a request that has kept
-- nothing on the caller yet, lets through who may do all that the handler requires, whoever they
-- are where it requires nothing, and answers Forbidden to every other, a caller who is not signed
-- in included.
pub can_activate-may_all :
    (env : Env) (caller : Option ℕ) (required : List ℕ) (db : Db)
    → AccessValid db
    → ((u : ℕ) → caller ≡ some u → read_cache u db ≡ none)
    → (can_activate env caller required db).0 ≡ (
        if is_cleared env.now caller required db
        then ok true
        else err (forbidden "Insufficient permissions"))
unfolding can_activate activate_for
can_activate-may_all env caller [] db v h = refl
can_activate-may_all env none (c ∷ cs) db v h = refl
can_activate-may_all env (some u) (c ∷ cs) db v h =
    rw (← holds_all-may_all env.now u db v (c ∷ cs))
      (activate_for-answer env u (c ∷ cs) _ db (fresh-codes env u db (h u refl)))
