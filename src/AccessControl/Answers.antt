-- ===== src/AccessControl/Answers.antt =====
-- The whole handlers: what they answer, and what the guards answer to the requests that follow.
use sto_info_backend.Base.{
  ℕ, ◌≡◌, refl, ap, ◌∙◌, inl, inr, true, false, Option, none, some, List, arith, if◌then◌else◌,
  Option-cases, ok, err, bind-ok, bind-unchanged, Action, forbidden, gets,
}
use sto_info_backend.Store.{find?, has_id, contains}
use sto_info_backend.Store.Dict.{Dict}
use sto_info_backend.Users.{User, is_user}
use sto_info_backend.AccessControl.Data.{
  is_grant, Permission, PermissionOverride, Db, Env, override_id_of, is_override_of, is_unexpired,
  has_user,
}
use sto_info_backend.AccessControl.Resolve.{
  resolve_permission_codes, read_cache, write_cache, resolve_and_keep, get_permission_codes,
  has_permission, assert_permission, confers,
}
use sto_info_backend.AccessControl.Rights.{
  find_permission, may_with, may_of, may, resolve_permission_codes-may,
}
use sto_info_backend.AccessControl.Admin.{
  SetPermissionOverride, UserAccessSummary, require_user, to_access_summary, describe_access,
  get_user_access_summary, put_override, set_permission_override, withdraw_override,
  remove_permission_override,
}
use sto_info_backend.AccessControl.Grants.{AccessValid, AccessValid-RightsValid, Leaves}
use sto_info_backend.AccessControl.Decisions.{put_override-may, withdraw_override-may}

-- What a request has kept does not bear on the tables.
may-cls :
    (now u c : ℕ) (db : Db) (x : Option (Dict (List ℕ)))
    → may now u c (record db { cls = x }) ≡ may now u c db
unfolding may may_of may_with find_permission confers
may-cls now u c db x = go (find? (is_user u) db.users)
  where
    with_permission :
        (usr : User) (o : Option Permission)
        → may_with now usr o (record db { cls = x }) ≡ may_with now usr o db
    with_permission usr none = refl
    with_permission usr (some p) = refl

    go : (o : Option User) → may_of now o c (record db { cls = x }) ≡ may_of now o c db
    go none = refl
    go (some usr) =
        ap (λ b. if usr.is_account_disabled then false else b)
          (with_permission usr (find_permission c db))

Leaves-cls :
    (u c : ℕ) (db db' : Db) (x : Option (Dict (List ℕ)))
    → Leaves u c db db'
    → Leaves u c db (record db' { cls = x })
Leaves-cls u c db db' x l = record {
  valid = record { permissions = l.valid.permissions; overrides = l.valid.overrides };
  others = λ now u' c' apart. may-cls now u' c' db' x ∙ l.others now u' c' apart;
}

-- A read of the codes answers, and writes nothing but what the request keeps.
abbrev pub IsRead : {A : Type 0} → Action Db A → Db → Type 0
IsRead {A} m db = (a : A) × (x : Option (Dict (List ℕ))) × (m db ≡ (ok a, record db { cls = x }))

resolve_and_keep-IsRead :
    (env : Env) (u : ℕ) (o : Option (List ℕ)) (db : Db) → IsRead (resolve_and_keep env u o) db
unfolding resolve_and_keep write_cache
resolve_and_keep-IsRead env u (some codes) db = (codes, db.cls, refl)
resolve_and_keep-IsRead env u none db = (_, _, refl)

pub get_permission_codes-IsRead :
    (env : Env) (u : ℕ) (db : Db) → IsRead (get_permission_codes env u) db
unfolding get_permission_codes
get_permission_codes-IsRead env u db = resolve_and_keep-IsRead env u (read_cache u db) db

require_user-ok :
    (u : ℕ) (db : Db) (usr : User)
    → find? (is_user u) db.users ≡ some usr
    → require_user u db ≡ (ok usr, db)
unfolding require_user
require_user-ok u db usr h = rw h refl

describe_access-IsRead :
    (env : Env) (u : ℕ) (usr : User) (db : Db) → IsRead (describe_access env u usr) db
unfolding describe_access
describe_access-IsRead env u usr db =
    let (codes, x, e) = get_permission_codes-IsRead env u db in
    (
      to_access_summary env u usr codes (record db { cls = x }),
      x,
      bind-ok (get_permission_codes env u) (λ cs. gets (to_access_summary env u usr cs)) db e,
    )

get_user_access_summary-IsRead :
    (env : Env) (u : ℕ) (db : Db) (usr : User)
    → find? (is_user u) db.users ≡ some usr
    → IsRead (get_user_access_summary env u) db
unfolding get_user_access_summary
get_user_access_summary-IsRead env u db usr h =
    let (s, x, e) = describe_access-IsRead env u usr db in
    (s, x, bind-ok (require_user u) (describe_access env u) db (require_user-ok u db usr h) ∙ e)

require_user-state : (u : ℕ) (db : Db) → (require_user u db).1 ≡ db
unfolding require_user
require_user-state u db = elim (Option-cases (find? (is_user u) db.users)) [
  | inl h ↦ rw h refl
  | inr (usr, h) ↦ rw h refl
]

pub get_user_access_summary-users :
    (env : Env) (u : ℕ) (db : Db) → (get_user_access_summary env u db).1.users ≡ db.users
unfolding get_user_access_summary
get_user_access_summary-users env u db =
    bind-unchanged (λ s. s.users) (require_user u) (describe_access env u) db
      (λ usr db'. let (s, x, e) = describe_access-IsRead env u usr db' in ap (λ r. r.1.users) e)
    ∙ ap (λ s. s.users) (require_user-state u db)

-- A request that has kept nothing on the user yet reads the tables.
pub fresh-codes :
    (env : Env) (u : ℕ) (db : Db)
    → read_cache u db ≡ none
    → (get_permission_codes env u db).0 ≡ ok (resolve_permission_codes env.now u db)
unfolding get_permission_codes resolve_and_keep
fresh-codes env u db h = rw h refl

assert_permission-answer :
    (env : Env) (u c : ℕ) (db : Db) (codes : List ℕ)
    → (get_permission_codes env u db).0 ≡ ok codes
    → (assert_permission env u c db).0
      ≡ (if contains c codes then ok tt else err (forbidden "Insufficient permissions"))
unfolding assert_permission has_permission
assert_permission-answer env u c db codes h = ground (arith, h)

-- Where the unique indexes hold, `assertPermission`, in a request that has kept nothing on the
-- user yet, passes a user who may do what the code names, and answers Forbidden to every other.
pub assert_permission-may :
    (env : Env) (u c : ℕ) (db : Db)
    → AccessValid db
    → read_cache u db ≡ none
    → (assert_permission env u c db).0
      ≡ (if may env.now u c db then ok tt else err (forbidden "Insufficient permissions"))
assert_permission-may env u c db v h =
    rw (← resolve_permission_codes-may env.now u c db (AccessValid-RightsValid db v))
      (assert_permission-answer env u c db _ (fresh-codes env u db h))

-- Where the unique indexes hold and the database draws a new id, `setPermissionOverride` for a
-- user and a permission that exist, by a user who has a row, succeeds. From the next request on, and as long as it has not
-- expired, the user may do what it grants and may not do what it denies, unless the account is
-- disabled; the rights of all others, and of the user on other codes, stay as they were.
pub set_permission_override-may :
    (env : Env) (db : Db) (user_id : ℕ) (dto : SetPermissionOverride) (acting : ℕ) (usr : User)
    (p : Permission)
    → AccessValid db
    → has_id override_id_of env.new_id db.overrides ≡ false
    → find? (is_user user_id) db.users ≡ some usr
    → find_permission dto.permission_code db ≡ some p
    → has_user acting db ≡ true
    → (s : UserAccessSummary) × (db' : Db) × (set_permission_override env user_id dto acting db
        ≡ (ok s, db'))
      × Leaves user_id dto.permission_code db db'
      × ((now : ℕ)
          → is_unexpired now dto.expires_at ≡ true
          → usr.is_account_disabled ≡ false
          → may now user_id dto.permission_code db' ≡ is_grant dto.effect)
unfolding set_permission_override
set_permission_override-may env db user_id dto acting usr p v new found known granter =
    let (db', run, users, l, decided) =
      put_override-may env db user_id dto acting usr p v new found known granter in
    let (s, x, e) = get_user_access_summary-IsRead env user_id db' usr (rw users found) in
    (
      s,
      record db' { cls = x },
      bind-ok (put_override env user_id dto acting) (λ _. get_user_access_summary env user_id) db
            run
          ∙ e,
      Leaves-cls user_id dto.permission_code db db' x l,
      λ now live enabled. may-cls now user_id dto.permission_code db' x ∙ decided now live enabled,
    )

-- Where the unique indexes hold, `removePermissionOverride` of a live override succeeds, and
-- returns the user to what the groups of the role confer, unless the account is disabled; the
-- rights of all others, and of the user on other codes, stay as they were.
pub remove_permission_override-may :
    (env : Env) (db : Db) (user_id code : ℕ) (usr : User) (p : Permission) (o : PermissionOverride)
    → AccessValid db
    → find? (is_user user_id) db.users ≡ some usr
    → find_permission code db ≡ some p
    → find? (is_override_of user_id p.id) db.overrides ≡ some o
    → (s : UserAccessSummary) × (db' : Db) × (remove_permission_override env user_id code db
        ≡ (ok s, db'))
      × Leaves user_id code db db'
      × ((now : ℕ)
          → usr.is_account_disabled ≡ false
          → may now user_id code db' ≡ confers usr.role db p)
unfolding remove_permission_override
remove_permission_override-may env db user_id code usr p o v found known live =
    let (db', run, users, l, decided) =
      withdraw_override-may env db user_id code usr p o v found known live in
    let (s, x, e) = get_user_access_summary-IsRead env user_id db' usr (rw users found) in
    (
      s,
      record db' { cls = x },
      bind-ok (withdraw_override env user_id code) (λ _. get_user_access_summary env user_id) db run
          ∙ e,
      Leaves-cls user_id code db db' x l,
      λ now enabled. may-cls now user_id code db' x ∙ decided now enabled,
    )
