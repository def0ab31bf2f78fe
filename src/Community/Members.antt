-- ===== src/Community/Members.antt =====
-- community/public-member.service.ts: members by username, and their public summaries.
use text.Mathlib.Text.{◌==◌ as str_eq}
use sto_info_backend.Base.{
  ℕ, ◌+◌, String, Bool, not, ◌&&◌, Option, none, some, List, [], ◌∷◌, is_none, min, map, get_or,
  Action, ◌>>=◌, gets, or_raise, not_found,
}
use sto_info_backend.Store.{keep, find?, count_where, contains}
use sto_info_backend.Store.Dict.{Dict, lookup, insert}
use sto_info_backend.Community.Data.{Profile, Character, Account, Db, Env}

pub record PublicMemberStats : Type 0 where
  pub account_count : ℕ
  pub character_count : ℕ
  pub playing_since : Option ℕ

-- `CommunityMemberDto`
pub record CommunityMember : Type 0 where
  pub username : String
  pub profile_picture_100 : Option String
  pub profile_picture_300 : Option String
  pub joined_at : ℕ
  pub last_active_at : Option ℕ
  pub playing_since : Option ℕ
  pub public_account_count : ℕ
  pub public_character_count : ℕ
  pub publicly_visible : Bool

unfoldable pub is_active : Profile → Bool
is_active p = is_none p.deleted_at && is_none p.user_deleted_at && not p.user_is_account_disabled

unfoldable pub find_active : Env → String → Db → Option Profile
unfolding find? is_active
find_active env username db =
    find? (λ p. str_eq (env.lower p.username) (env.lower username) && is_active p) db.profiles

unfoldable pub require_active_member : Env → String → Action Db Profile
unfolding find_active
require_active_member env username = do
  profile ← gets (find_active env username)
  or_raise profile (not_found "Member not found")

-- The earlier of two dates, where a date that is not recorded does not count.
unfoldable pub min_date : Option ℕ → Option ℕ → Option ℕ
min_date none d = d
min_date (some n) none = some n
min_date (some n) (some m) = some (min n m)

-- The columns of the aggregate query for one group: COUNT(DISTINCT account.id),
-- COUNT(character.id) and MIN(account.accountCreatedDate).
unfoldable pub is_public_character : Character → Bool
is_public_character c = c.publicly_visible && is_none c.deleted_at

unfoldable pub add_account : Account → PublicMemberStats → PublicMemberStats
unfolding count_where is_public_character min_date
add_account a s = record {
  account_count = s.account_count + 1;
  character_count = s.character_count + count_where is_public_character a.characters;
  playing_since = min_date a.account_created_date s.playing_since;
}

abbrev pub no_stats : PublicMemberStats
no_stats = record { account_count = 0; character_count = 0; playing_since = none }

-- One row for each user with an account among these, as GROUP BY makes them.
unfoldable pub group_by_user : List Account → Dict PublicMemberStats
unfolding add_account lookup insert
group_by_user [] = []
group_by_user (a ∷ rest) =
    let groups = group_by_user rest in
    insert a.user_id (add_account a (get_or (lookup a.user_id groups) no_stats)) groups

unfoldable pub is_public_account : List ℕ → Account → Bool
unfolding contains
is_public_account user_ids a =
    contains a.user_id user_ids && a.publicly_visible && is_none a.deleted_at

unfoldable pub get_public_member_stats : List ℕ → Db → Dict PublicMemberStats
unfolding keep group_by_user is_public_account
get_public_member_stats [] db = []
get_public_member_stats (i ∷ user_ids) db =
    group_by_user (keep (is_public_account (i ∷ user_ids)) db.accounts)

unfoldable pub to_member : Profile → Dict PublicMemberStats → CommunityMember
unfolding lookup
to_member profile stats =
    let s = get_or (lookup profile.user_id stats) no_stats in
    record {
      username = profile.username;
      profile_picture_100 = profile.profile_picture_100;
      profile_picture_300 = profile.profile_picture_300;
      joined_at = profile.created_at;
      last_active_at = profile.user_last_login_at;
      playing_since = s.playing_since;
      public_account_count = s.account_count;
      public_character_count = s.character_count;
      publicly_visible = profile.publicly_visible;
    }

-- The loop over the profiles that the query found.
unfoldable pub set_members :
    List Profile → Dict PublicMemberStats → Dict CommunityMember → Dict CommunityMember
unfolding insert to_member
set_members [] stats members = members
set_members (p ∷ ps) stats members =
    set_members ps stats (insert p.user_id (to_member p stats) members)

unfoldable pub profile_user_ids : List Profile → List ℕ
profile_user_ids = map (λ p. p.user_id)

unfoldable pub is_active_among : List ℕ → Profile → Bool
unfolding contains is_active
is_active_among user_ids p = contains p.user_id user_ids && is_active p

unfoldable pub find_members_by_user_ids : List ℕ → Db → Dict CommunityMember
unfolding set_members get_public_member_stats profile_user_ids keep is_active_among
find_members_by_user_ids [] db = []
find_members_by_user_ids (i ∷ user_ids) db =
    let profiles = keep (is_active_among (i ∷ user_ids)) db.profiles in
    set_members profiles (get_public_member_stats (profile_user_ids profiles) db) []
