-- ===== src/AccessControl/Rights.antt =====
-- What a user may do, as the documented order decides it, and the set of codes that the service
-- computes.
use sto_info_backend.Base.{
  ℕ, ◌≡◌, refl, ap, ◌∙◌, ◌≤◌, inl, inr, Bool, false, Option, none, some, List, [], ◌∷◌, arith, ◌==◌,
  if◌then◌else◌, Bool-cases, map,
}
use sto_info_backend.Store.{keep, find?, has_id, count_where, contains, HasDistinctIds}
use sto_info_backend.Users.{User, is_user}
use sto_info_backend.AccessControl.Data.{Permission, Db, permission_code_of, is_override_of}
use sto_info_backend.AccessControl.Resolve.{
  confers, find_role_permissions, find_overrides, codes_with_overrides, codes_of_user,
  resolve_permission_codes,
}
use sto_info_backend.AccessControl.Lookup.{
  PermissionsValid, is_in_force, effect_or, contains-apply_overrides_join,
  contains-apply_overrides_unknown,
}

-- An override in force decides; without one, the groups of the user's role do.
unfoldable pub may_with : ℕ → User → Option Permission → Db → Bool
may_with now u none db = false
may_with now u (some p) db =
    effect_or (find? (is_in_force now u.id p.id) db.overrides) (confers u.role db p)

unfoldable pub find_permission : ℕ → Db → Option Permission
find_permission code db = find? (λ p. permission_code_of p == code) db.permissions

-- A user who is unknown or disabled may do nothing.
unfoldable pub may_of : ℕ → Option User → ℕ → Db → Bool
may_of now none code db = false
may_of now (some u) code db =
    if u.is_account_disabled then false else may_with now u (find_permission code db) db

unfoldable pub may : ℕ → ℕ → ℕ → Db → Bool
may now user_id code db = may_of now (find? (is_user user_id) db.users) code db

-- The unique indexes of the tables.
pub record RightsValid (db : Db) : Type 0 where
  pub permissions : PermissionsValid db.permissions
  pub one_override : (u p : ℕ) → count_where (is_override_of u p) db.overrides ≤ 1

codes-unknown :
    (q : Permission → Bool) (c : ℕ) (ps : List Permission)
    → find? (λ p. permission_code_of p == c) ps ≡ none
    → contains c (map (λ p. p.code) (keep q ps)) ≡ false
unfolding contains keep find? permission_code_of
codes-unknown q c [] h = refl
codes-unknown q c (p ∷ ps) h = ground (arith, codes-unknown q c ps)

codes-absent :
    (q : Permission → Bool) (c : ℕ) (ps : List Permission)
    → has_id permission_code_of c ps ≡ false
    → contains c (map (λ p. p.code) (keep q ps)) ≡ false
unfolding contains keep has_id permission_code_of
codes-absent q c [] h = refl
codes-absent q c (p ∷ ps) h = ground (arith, codes-absent q c ps)

codes-known :
    (q : Permission → Bool) (c : ℕ) (p : Permission) (ps : List Permission)
    → HasDistinctIds permission_code_of ps
    → find? (λ p'. permission_code_of p' == c) ps ≡ some p
    → contains c (map (λ p'. p'.code) (keep q ps)) ≡ q p
unfolding contains keep find? permission_code_of
codes-known q c p [] d h = cc
codes-known q c p (x ∷ xs) (new, d) h = elim (Bool-cases (x.code == c)) [
  | inl here ↦
      let same : x ≡ p = ground (arith, here) in
      let e : x.code ≡ c = ground (arith, here) in
      ground (arith, same, here, codes-absent q c xs (rw (← e) new))
  | inr later ↦
      let rest : find? (λ p'. p'.code == c) xs ≡ some p = ground (arith, later) in
      ground (arith, later, codes-known q c p xs d rest)
]

codes_with_overrides-may_with :
    (now : ℕ) (u : User) (c : ℕ) (db : Db)
    → RightsValid db
    → (o : Option Permission) → find? (λ p. permission_code_of p == c) db.permissions ≡ o
    → contains c (codes_with_overrides now u db) ≡ may_with now u o db
unfolding codes_with_overrides find_role_permissions find_overrides may_with
codes_with_overrides-may_with now u c db v none unknown =
    contains-apply_overrides_unknown db.permissions c now u.id unknown db.overrides _
    ∙ codes-unknown (confers u.role db) c db.permissions unknown
codes_with_overrides-may_with now u c db v (some p) known =
    contains-apply_overrides_join db.permissions v.permissions c p known now u.id db.overrides _
      (v.one_override u.id p.id)
    ∙ ap (effect_or (find? (is_in_force now u.id p.id) db.overrides))
        (codes-known (confers u.role db) c p db.permissions v.permissions.codes known)

contains-nil : (c : ℕ) → contains c [] ≡ false
unfolding contains
contains-nil c = refl

codes_of_user-may_of :
    (now : ℕ) (o : Option User) (c : ℕ) (db : Db)
    → RightsValid db
    → contains c (codes_of_user now o db) ≡ may_of now o c db
unfolding codes_of_user may_of find_permission
codes_of_user-may_of now none c db v = contains-nil c
codes_of_user-may_of now (some u) c db v =
    ground (
      arith,
      contains-nil c,
      codes_with_overrides-may_with now u c db v (find_permission c db) refl,
    )

-- Where the unique indexes hold, the set that `resolvePermissionCodes` builds in its loop holds a code
-- exactly where the documented order allows it: a user who is unknown or disabled has none, an override
-- in force decides, and otherwise the groups of the role do.
pub resolve_permission_codes-may :
    (now user_id c : ℕ) (db : Db)
    → RightsValid db
    → contains c (resolve_permission_codes now user_id db) ≡ may now user_id c db
unfolding resolve_permission_codes may
resolve_permission_codes-may now user_id c db v =
    codes_of_user-may_of now (find? (is_user user_id) db.users) c db v
