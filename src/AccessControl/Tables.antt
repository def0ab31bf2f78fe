-- ===== src/AccessControl/Tables.antt =====
-- What a write leaves in the tables of overrides and of limits.
use sto_info_backend.Base.{ℕ, ◌≡◌, ap, ◌≤◌, true, false, ◌&&◌, none, some, List, ◌∷◌, arith, ◌==◌}
use sto_info_backend.Store.{find?, has_id, count_where, save_row, HasDistinctIds}
use sto_info_backend.Store.Laws.{
  find?-holds, find?-eq_none-count_where, count_where-cons, count_where-save_row,
  find?-save_row_narrow, HasDistinctIds-save_row, count_where-eq_zero-find?, count_where_mono,
}
use sto_info_backend.Store.Keys.{update_where-save_row, find?-save_row_other}
use sto_info_backend.AccessControl.Data.{PermissionOverride, override_id_of, is_override_of}
use sto_info_backend.AccessControl.Lookup.{is_in_force}
use sto_info_backend.AccessControl.Admin.{update_override}

-- The unique index and the primary key of the overrides.
pub record OverridesValid (os : List PermissionOverride) : Type 0 where
  pub ids : HasDistinctIds override_id_of os
  pub one : (u p : ℕ) → count_where (is_override_of u p) os ≤ 1

-- A table after a write to the row of one user and one permission.
pub record Written (u p : ℕ) (os os' : List PermissionOverride) : Type 0 where
  pub valid : OverridesValid os'
  pub others :
      (now u' p' : ℕ)
      → ((u' == u) && (p' == p)) ≡ false
      → find? (is_in_force now u' p') os' ≡ find? (is_in_force now u' p') os

in_force-override :
    (now u p : ℕ) (o : PermissionOverride)
    → is_in_force now u p o ≡ true
    → is_override_of u p o ≡ true
unfolding is_in_force
in_force-override now u p o h = ground (arith, h)

-- The write of the live row of a pair, which stays the row of that pair or is removed.
module _ (u p : ℕ) (os : List PermissionOverride) (v : OverridesValid os) (o : PermissionOverride)
    (found : find? (is_override_of u p) os ≡ some o) (f : PermissionOverride → PermissionOverride)
    (same_id : (f o).id ≡ o.id) where
  update_override-save_row : update_override o.id f os ≡ save_row override_id_of (f o) os
  unfolding update_override override_id_of
  update_override-save_row =
      update_where-save_row override_id_of (is_override_of u p) f o os v.ids found same_id

  pub update_override-Written :
      ((u' p' : ℕ) → is_override_of u' p' (f o) ≡ true → is_override_of u' p' o ≡ true)
      → Written u p os (update_override o.id f os)
  unfolding override_id_of is_in_force is_override_of
  update_override-Written narrow =
      let holds = find?-holds (is_override_of u p) os o found in
      rw update_override-save_row (record {
        valid = record {
          ids = HasDistinctIds-save_row override_id_of (f o) os v.ids;
          one = λ u' p'.
              let counted =
                count_where-save_row override_id_of (is_override_of u' p') (is_override_of u p) o
                  (f o) os v.ids found same_id in
              ground (arith, counted, v.one u' p', narrow u' p');
        };
        others = λ now u' p' apart.
            find?-save_row_other override_id_of (is_in_force now u' p') (is_override_of u p) o (f o)
              os v.ids found same_id (ground (arith, holds, apart))
              (ground (arith, holds, apart, narrow u' p'));
      })

  pub update_override-in_force :
      (now : ℕ)
      → is_in_force now u p (f o) ≡ true
      → find? (is_in_force now u p) (update_override o.id f os) ≡ some (f o)
  unfolding override_id_of
  update_override-in_force now h = rw update_override-save_row (
      find?-save_row_narrow override_id_of (is_in_force now u p) (is_override_of u p) o (f o) os
        v.ids found same_id (in_force-override now u p) h)

-- A new row for a pair that has none.
module _ (os : List PermissionOverride) (v : OverridesValid os) (o : PermissionOverride)
    (new : has_id override_id_of o.id os ≡ false)
    (free : find? (is_override_of o.user_id o.permission_id) os ≡ none) where
  pub cons-Written : Written o.user_id o.permission_id os (o ∷ os)
  unfolding override_id_of find? is_in_force is_override_of
  cons-Written = record {
    valid = record {
      ids = (new, v.ids);
      one = λ u p.
          let counted = count_where-cons (is_override_of u p) o os in
          let zero = find?-eq_none-count_where (is_override_of o.user_id o.permission_id) os free in
          ground (arith, counted, v.one u p, zero);
    };
    others = λ now u p apart. ground (arith, apart);
  }

-- A row that is removed leaves its pair without an override.
module _ (u p : ℕ) (os : List PermissionOverride) (v : OverridesValid os) (o : PermissionOverride)
    (found : find? (is_override_of u p) os ≡ some o) (f : PermissionOverride → PermissionOverride)
    (same_id : (f o).id ≡ o.id) (gone : is_override_of u p (f o) ≡ false) where
  pub update_override-gone :
      (now : ℕ) → find? (is_in_force now u p) (update_override o.id f os) ≡ none
  unfolding override_id_of
  update_override-gone now =
      let holds = find?-holds (is_override_of u p) os o found in
      let counted =
        count_where-save_row override_id_of (is_override_of u p) (is_override_of u p) o (f o) os
          v.ids found same_id in
      let rows = update_override o.id f os in
      let fewer =
        count_where_mono (is_in_force now u p) (is_override_of u p) (in_force-override now u p)
          rows in
      let written =
        ap (count_where (is_override_of u p))
          (update_override-save_row u p os v o found f same_id) in
      count_where-eq_zero-find? (is_in_force now u p) rows
        (ground (arith, counted, holds, gone, v.one u p, fewer, written))
