-- ===== src/Moderation/Tests.antt =====
-- The theorems about moderation at concrete inputs.
use sto_info_backend.Base.{ℕ, ◌≡◌, refl, true, false, none, some, [], ◌∷◌, ok, arith}
use sto_info_backend.Store.{find?, has_id, count_where}
use sto_info_backend.Users.{UserRole, user, admin, User, is_user}
use sto_info_backend.Community.Data.{Profile, Env as CommunityEnv}
use sto_info_backend.Moderation.Data.{
  spam, opened, dismissed, UserReport, Site, account_id, report_row_id, is_awaiting,
}
use sto_info_backend.Moderation.Reports.{UpdateReport, report_member}
use sto_info_backend.Moderation.Accounts.{ModeratedUser, disable_user, enable_user}
use sto_info_backend.Moderation.Lockout.{
  IsLockedOut, disable_user-IsLockedOut, admins_of, disable_user-admins_of,
}
use sto_info_backend.Moderation.Queue.{ReportsValid, IsSound, report_member-IsSound}

abbrev env : CommunityEnv
env = record {
  now = 10;
  new_id = 90;
  frontend_url = none;
  lower = λ s. s;
  create_notification = λ n ns. some (n ∷ ns);
}

abbrev someone : ℕ → UserRole → User
someone n role = record {
  id = n;
  email = "someone@example.com";
  password = 0;
  email_verified = true;
  email_verification_token = none;
  email_verification_token_expiry = none;
  password_reset_token = none;
  password_reset_token_expiry = none;
  last_password_reset = none;
  role = role;
  is_account_disabled = false;
  disabled_at = none;
  disabled_reason = none;
  disabled_by_id = none;
  last_login_at = none;
  created_at = 1;
  deleted_at = none;
}

abbrev khan : Profile
khan = record {
  user_id = 1;
  username = "khan";
  profile_picture_100 = none;
  profile_picture_300 = none;
  publicly_visible = true;
  created_at = 1;
  deleted_at = none;
  user_deleted_at = none;
  user_is_account_disabled = false;
  user_last_login_at = none;
}

-- A report that was dismissed, and a second one of the same pair that waits.
abbrev closed : UserReport
closed = record {
  id = 5;
  reporter_id = 3;
  reported_id = 1;
  reason = spam;
  details = none;
  status = dismissed;
  moderator_notes = none;
  reviewed_by_id = some 2;
  reviewed_at = some 4;
  created_at = 2;
  deleted_at = none;
}

abbrev waiting : UserReport
waiting = record closed { id = 6; status = opened; reviewed_by_id = none; reviewed_at = none }

abbrev start : Site
start = record {
  users = someone 1 user ∷ someone 2 admin ∷ someone 3 user ∷ [];
  reports = closed ∷ waiting ∷ [];
  tokens =
      record {
        id = 1;
        user_id = 1;
        jwt_id = some 7;
        token_id = some 8;
        expires_at = 99;
        is_revoked = false;
      }
      ∷ [];
  community = record {
    users = 1 ∷ 2 ∷ [];
    profiles = khan ∷ [];
    accounts = [];
    friendships = [];
    blocks = [];
    notifications = [];
  };
}

start-ReportsValid : ReportsValid start.reports
unfolding has_id report_row_id count_where is_awaiting
start-ReportsValid = record { ids = (refl, (refl, tt)); one = λ u v. ground arith }

disable_user-IsLockedOut_example :
    (m : ModeratedUser) × (site' : Site) × (disable_user env 1 2 (some "spam") start
      ≡ (ok m, site'))
    × IsLockedOut 1 site'
unfolding has_id account_id find? is_user
disable_user-IsLockedOut_example =
    disable_user-IsLockedOut env 1 2 (some "spam") start (someone 1 user) (refl, (refl, (refl, tt)))
      refl refl (λ e. omega (arith, e))

disable_user-admins_of_example :
    (admins_of (disable_user env 1 2 none start).1 ≡ admins_of start)
    × (admins_of (enable_user 1 2 start).1 ≡ admins_of start)
unfolding has_id account_id
disable_user-admins_of_example =
    disable_user-admins_of env 1 2 none start (refl, (refl, (refl, tt)))

report_member-IsSound_example :
    IsSound
      (report_member env 2 (record { username = "khan"; reason = spam; details = none }) start)
unfolding has_id report_row_id
report_member-IsSound_example =
    report_member-IsSound env 2 (record { username = "khan"; reason = spam; details = none }) start
      start-ReportsValid refl

abbrev reopen : UpdateReport
reopen = record { status = opened; moderator_notes = none }
