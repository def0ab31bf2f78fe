-- ===== src/Users.antt =====
-- user/entities/user.entity.ts and user/enums/user-role.enum.ts: the columns of a user that the
-- authentication, the moderation and the access control read or write. A hash of bcrypt and a random
-- token are only compared, and stand as numbers.
use sto_info_backend.Base.{ℕ, String, Bool, ◌&&◌, Option, ◌==◌, is_none}

pub data UserRole : Type 0 where
  user admin storytime_curator : UserRole

abbrev pub is_admin : UserRole → Bool
is_admin r = elim r [ admin ↦ Bool.true | _ ↦ Bool.false ]

unfoldable pub is_same_role : UserRole → UserRole → Bool
is_same_role user user = Bool.true
is_same_role admin admin = Bool.true
is_same_role storytime_curator storytime_curator = Bool.true
is_same_role r s = Bool.false

pub record User : Type 0 where
  pub id : ℕ
  pub email : String
  pub password : ℕ
  pub email_verified : Bool
  pub email_verification_token : Option ℕ
  pub email_verification_token_expiry : Option ℕ
  pub password_reset_token : Option ℕ
  pub password_reset_token_expiry : Option ℕ
  pub last_password_reset : Option ℕ
  pub role : UserRole
  pub is_account_disabled : Bool
  pub disabled_at : Option ℕ
  pub disabled_reason : Option String
  pub disabled_by_id : Option ℕ
  pub last_login_at : Option ℕ
  pub created_at : ℕ
  pub deleted_at : Option ℕ

-- `where: { id }`; TypeORM leaves out the rows that are removed softly.
unfoldable pub is_user : ℕ → User → Bool
is_user user_id u = u.id == user_id && is_none u.deleted_at

unfoldable pub user_id_of : User → ℕ
user_id_of u = u.id
