-- ===== src/AccessControl/Lookup.antt =====
-- What the loop over the overrides leaves of the set of codes.
use sto_info_backend.Base.{
  ℕ, ◌≡◌, ◌≢◌, refl, ap, ◌∙◌, ◌≤◌, inl, inr, Bool, true, false, ◌&&◌, Option, none, some, List, [],
  ◌∷◌, arith, ◌==◌, if◌then◌else◌, Bool-cases, Option-cases,
}
use sto_info_backend.Store.{keep, find?, count_where, contains, HasDistinctIds}
use sto_info_backend.Store.Laws.{find?-holds, count_where-eq_zero-find?, count_where_mono}
use sto_info_backend.Store.Keys.{find?-by_key}
use sto_info_backend.Store.Sets.{contains-set_add, contains-set_delete}
use sto_info_backend.AccessControl.Data.{
  is_grant, Permission, PermissionOverride, permission_id_of, permission_code_of, is_override_of,
  is_unexpired,
}
use sto_info_backend.AccessControl.Resolve.{
  OverrideRow, applies_to, join_permission, join_permissions, apply_override, apply_overrides,
}

-- Both indexes of the permission table.
pub record PermissionsValid (ps : List Permission) : Type 0 where
  pub ids : HasDistinctIds permission_id_of ps
  pub codes : HasDistinctIds permission_code_of ps

-- The override of one user and one permission that counts at a time.
unfoldable pub is_in_force : ℕ → ℕ → ℕ → PermissionOverride → Bool
unfolding is_override_of is_unexpired
is_in_force now u p o = is_override_of u p o && is_unexpired now o.expires_at

-- The effect of an override, or what stands without one.
abbrev pub effect_or : Option PermissionOverride → Bool → Bool
effect_or none b = b
effect_or (some o) b = is_grant o.effect

-- Membership of a code after the rows of the overrides.
abbrev after_rows : ℕ → List OverrideRow → Bool → Bool
after_rows c [] b = b
after_rows c (r ∷ rs) b = after_rows c rs (if r.code == c then is_grant r.effect else b)

after_rows-cons :
    (c : ℕ) (r : OverrideRow) (rs : List OverrideRow) (b t : Bool)
    → (r.code == c) ≡ t
    → after_rows c (r ∷ rs) b ≡ after_rows c rs (if t then is_grant r.effect else b)
after_rows-cons c r rs b t e = ap (λ x. after_rows c rs (if x then is_grant r.effect else b)) e

contains-apply_override :
    (c : ℕ) (r : OverrideRow) (codes : List ℕ)
    → contains c (apply_override r codes)
      ≡ (if r.code == c then is_grant r.effect else contains c codes)
unfolding apply_override
contains-apply_override c r codes =
    ground (arith, contains-set_add c r.code codes, contains-set_delete c r.code codes)

contains-apply_overrides :
    (c : ℕ) (rs : List OverrideRow) (codes : List ℕ)
    → contains c (apply_overrides rs codes) ≡ after_rows c rs (contains c codes)
unfolding apply_overrides
contains-apply_overrides c [] codes = refl
contains-apply_overrides c (r ∷ rs) codes =
    contains-apply_overrides c rs (apply_override r codes)
    ∙ ap (after_rows c rs) (contains-apply_override c r codes)

module _ (ps : List Permission) (v : PermissionsValid ps) (c : ℕ) (p : Permission)
    (found : find? (λ q. permission_code_of q == c) ps ≡ some p) where
  joined-same :
      (o : PermissionOverride)
      → o.permission_id ≡ p.id
      → join_permission ps o ≡ some (record { code = c; effect = o.effect })
  unfolding join_permission permission_id_of permission_code_of
  joined-same o e =
      let by_id : find? (λ q. q.id == o.permission_id) ps ≡ some p =
        rw e (find?-by_key permission_id_of (λ q. permission_code_of q == c) p ps v.ids found) in
      let is_code = find?-holds (λ q. permission_code_of q == c) ps p found in
      ground (arith, by_id, is_code)

  joined-other :
      (o : PermissionOverride) (r : OverrideRow)
      → o.permission_id ≢ p.id
      → join_permission ps o ≡ some r
      → (r.code == c) ≡ false
  unfolding join_permission permission_id_of permission_code_of
  joined-other o r ne e = elim (Option-cases (find? (λ q. q.id == o.permission_id) ps)) [
    | inl h ↦ ground (arith, h)
    | inr (q, h) ↦
        let by_code =
          find?-by_key permission_code_of (λ q'. q'.id == o.permission_id) q ps v.codes h in
        let is_id = find?-holds (λ q'. q'.id == o.permission_id) ps q h in
        elim (Bool-cases (q.code == c)) [
          | inl same ↦
              let qc : q.code ≡ c = ground (arith, same) in
              let again : find? (λ q'. q'.code == c) ps ≡ some q = rw (← qc) by_code in
              ground (arith, again, found, is_id)
          | inr other ↦ ground (arith, other, h)
        ]
  ]

  no_more_in_force :
      (now u : ℕ) (os : List PermissionOverride)
      → count_where (is_override_of u p.id) os ≡ 0
      → find? (is_in_force now u p.id) os ≡ none
  unfolding is_in_force
  no_more_in_force now u os e = count_where-eq_zero-find? (is_in_force now u p.id) os (
      omega (
        arith,
        e,
        count_where_mono (is_in_force now u p.id) (is_override_of u p.id) (λ o h. ground (arith, h))
            os,
      ))

  -- The three ways in which one override meets the loop.
  after_join-skip :
      (now u : ℕ) (o : PermissionOverride) (os : List PermissionOverride) (b : Bool)
      → applies_to now u o ≡ false
      → after_rows c (join_permissions ps (keep (applies_to now u) (o ∷ os))) b
        ≡ after_rows c (join_permissions ps (keep (applies_to now u) os)) b
  unfolding keep
  after_join-skip now u o os b e = rw e

  after_join-same :
      (now u : ℕ) (o : PermissionOverride) (os : List PermissionOverride) (b : Bool)
      → applies_to now u o ≡ true
      → o.permission_id ≡ p.id
      → after_rows c (join_permissions ps (keep (applies_to now u) (o ∷ os))) b
        ≡ after_rows c (join_permissions ps (keep (applies_to now u) os)) (is_grant o.effect)
  unfolding keep join_permissions
  after_join-same now u o os b e same =
      rw (e, joined-same o same)
        (after_rows-cons c (record { code = c; effect = o.effect })
          (join_permissions ps (keep (applies_to now u) os)) b true (ground arith))

  after_join-other :
      (now u : ℕ) (o : PermissionOverride) (os : List PermissionOverride) (b : Bool)
      → applies_to now u o ≡ true
      → o.permission_id ≢ p.id
      → after_rows c (join_permissions ps (keep (applies_to now u) (o ∷ os))) b
        ≡ after_rows c (join_permissions ps (keep (applies_to now u) os)) b
  unfolding keep join_permissions
  after_join-other now u o os b e other = elim (Option-cases (join_permission ps o)) [
    | inl h ↦ rw (e, h)
    | inr (r, h) ↦
        rw (e, h)
          (after_rows-cons c r (join_permissions ps (keep (applies_to now u) os)) b false
            (joined-other o r other h))
  ]

  after_rows-join :
      (now u : ℕ) (os : List PermissionOverride) (b : Bool)
      → count_where (is_override_of u p.id) os ≤ 1
      → after_rows c (join_permissions ps (keep (applies_to now u) os)) b
        ≡ effect_or (find? (is_in_force now u p.id) os) b
  unfolding find? is_in_force applies_to is_override_of count_where keep join_permissions
  after_rows-join now u [] b one = refl
  after_rows-join now u (o ∷ os) b one =
      let ih = after_rows-join now u os in
      elim (Bool-cases (applies_to now u o)) [
        | inl here ↦ elim (Bool-cases (o.permission_id == p.id)) [
          | inl same ↦
              let e : o.permission_id ≡ p.id = ground (arith, same) in
              ground (
                arith,
                here,
                e,
                after_join-same now u o os b here e,
                ih (is_grant o.effect),
                no_more_in_force now u os,
              )
          | inr other ↦
              let ne : o.permission_id ≢ p.id = λ e. ground (arith, other, e) in
              ground (arith, here, other, after_join-other now u o os b here ne, ih b)
        ]
        | inr skip ↦ ground (arith, skip, after_join-skip now u o os b skip, ih b)
      ]

  -- The set that the loop leaves holds the code where the override in force grants it, or, without one,
  -- where it was in the set before.
  pub contains-apply_overrides_join :
      (now u : ℕ) (os : List PermissionOverride) (codes : List ℕ)
      → count_where (is_override_of u p.id) os ≤ 1
      → contains c (apply_overrides (join_permissions ps (keep (applies_to now u) os)) codes)
        ≡ effect_or (find? (is_in_force now u p.id) os) (contains c codes)
  contains-apply_overrides_join now u os codes one =
      contains-apply_overrides c _ codes ∙ after_rows-join now u os (contains c codes) one

-- A code that no permission has is in no row.
module _ (ps : List Permission) (c now u : ℕ)
    (unknown : find? (λ q. permission_code_of q == c) ps ≡ none) where
  has-unknown :
      (q : Permission → Bool) (qs : List Permission) (x : Permission)
      → find? (λ r. permission_code_of r == c) qs ≡ none
      → find? q qs ≡ some x
      → (x.code == c) ≡ false
  unfolding find? permission_code_of
  has-unknown q [] x h e = cc
  has-unknown q (y ∷ ys) x h e = ground (arith, has-unknown q ys x)

  joined_unknown :
      (o : PermissionOverride) (r : OverrideRow)
      → join_permission ps o ≡ some r
      → (r.code == c) ≡ false
  unfolding join_permission
  joined_unknown o r e = elim (Option-cases (find? (λ q. q.id == o.permission_id) ps)) [
    | inl h ↦ ground (arith, h)
    | inr (q, h) ↦ ground (arith, h, has-unknown (λ q'. q'.id == o.permission_id) ps q unknown h)
  ]

  after_join-unknown :
      (os : List PermissionOverride) (b : Bool) → after_rows c (join_permissions ps os) b ≡ b
  unfolding join_permissions
  after_join-unknown [] b = refl
  after_join-unknown (o ∷ os) b = elim (Option-cases (join_permission ps o)) [
    | inl h ↦ rw h (after_join-unknown os b)
    | inr (r, h) ↦ rw h (
        after_rows-cons c r (join_permissions ps os) b false (joined_unknown o r h)
        ∙ after_join-unknown os b)
  ]

  pub contains-apply_overrides_unknown :
      (os : List PermissionOverride) (codes : List ℕ)
      → contains c (apply_overrides (join_permissions ps (keep (applies_to now u) os)) codes)
        ≡ contains c codes
  contains-apply_overrides_unknown os codes =
      contains-apply_overrides c _ codes
      ∙ after_join-unknown (keep (applies_to now u) os) (contains c codes)
