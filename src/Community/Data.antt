-- ===== src/Community/Data.antt =====
-- The rows behind the community services: community/entities, the profile, user and account
-- columns that they read, and the tables and constraints of the migration
-- database/migrations/1786060800000-CreateFriendshipAndUserBlock.ts.
-- Identifiers are uuids that the code only compares, so they are numbers; a time is a number too.
use sto_info_backend.Base.{
  ℕ, String, Bool, not, ◌&&◌, ◌||◌, Option, List, ◌∷◌, ◌==◌, if◌then◌else◌, is_none, Action, ok,
  err, query_failed, reference_failed,
}
use sto_info_backend.Store.{any, contains, save_row}

pub data FriendshipStatus : Type 0 where
  pending accepted declined : FriendshipStatus

abbrev pub is_pending : FriendshipStatus → Bool
is_pending s = elim s [ pending ↦ Bool.true | _ ↦ Bool.false ]

abbrev pub is_accepted : FriendshipStatus → Bool
is_accepted s = elim s [ accepted ↦ Bool.true | _ ↦ Bool.false ]

-- `FriendshipEntity`; `updatedAt` is never read.
pub record Friendship : Type 0 where
  pub id : ℕ
  pub requester_id : ℕ
  pub addressee_id : ℕ
  pub status : FriendshipStatus
  pub responded_at : Option ℕ
  pub created_at : ℕ
  pub deleted_at : Option ℕ

abbrev pub friendship_id : Friendship → ℕ
friendship_id f = f.id

unfoldable pub other_user_id : Friendship → ℕ → ℕ
other_user_id f user_id = if f.requester_id == user_id then f.addressee_id else f.requester_id

pub record UserBlock : Type 0 where
  pub id : ℕ
  pub blocker_id : ℕ
  pub blocked_id : ℕ
  pub reason : Option String
  pub created_at : ℕ
  pub deleted_at : Option ℕ

abbrev pub block_row_id : UserBlock → ℕ
block_row_id b = b.id

-- `UserProfileEntity`, with the columns of its user that are read.
pub record Profile : Type 0 where
  pub user_id : ℕ
  pub username : String
  pub profile_picture_100 : Option String
  pub profile_picture_300 : Option String
  pub publicly_visible : Bool
  pub created_at : ℕ
  pub deleted_at : Option ℕ
  pub user_deleted_at : Option ℕ
  pub user_is_account_disabled : Bool
  pub user_last_login_at : Option ℕ

pub record Character : Type 0 where
  pub publicly_visible : Bool
  pub deleted_at : Option ℕ

-- `AccountEntity` with its characters.
pub record Account : Type 0 where
  pub user_id : ℕ
  pub publicly_visible : Bool
  pub deleted_at : Option ℕ
  pub account_created_date : Option ℕ
  pub characters : List Character

-- What the friend services hand to `NotificationService.createNotification`; its target is always
-- a user, its severity always INFO.
pub record Notification : Type 0 where
  pub user_id : ℕ
  pub title : String
  pub body : String
  pub link_url : Option String

-- `users` holds the ids of the table of users, removed softly or not.
pub record Db : Type 0 where
  pub users : List ℕ
  pub profiles : List Profile
  pub accounts : List Account
  pub friendships : List Friendship
  pub blocks : List UserBlock
  pub notifications : List Notification

-- What a request meets outside this code: the time, the uuid that the database draws, the
-- environment, the LOWER of the database, and the delivery of a notification, which may fail.
pub record Env : Type 0 where
  pub now : ℕ
  pub new_id : ℕ
  pub frontend_url : Option String
  pub lower : String → String
  pub create_notification : Notification → List Notification → Option (List Notification)

-- The live row of a pair, whoever asked.
unfoldable pub is_between : ℕ → ℕ → Friendship → Bool
is_between u v f =
    ((f.requester_id == u && f.addressee_id == v) || (f.requester_id == v && f.addressee_id == u))
    && is_none f.deleted_at

-- A live block between two members, whoever holds it.
unfoldable pub is_block_between : ℕ → ℕ → UserBlock → Bool
is_block_between u v b =
    ((b.blocker_id == u && b.blocked_id == v) || (b.blocker_id == v && b.blocked_id == u))
    && is_none b.deleted_at

-- What CHK_friendship_not_self and UQ_friendship_pair refuse to hold beside the other rows.
unfoldable pub refuses_friendship : Friendship → List Friendship → Bool
unfolding any is_between
refuses_friendship f rows =
    f.requester_id == f.addressee_id
    || is_none f.deleted_at
      && any (λ g. not (g.id == f.id) && is_between f.requester_id f.addressee_id g) rows

-- What CHK_user_block_not_self and UQ_user_block_pair refuse.
unfoldable pub refuses_block : UserBlock → List UserBlock → Bool
unfolding any
refuses_block b rows =
    b.blocker_id == b.blocked_id
    || is_none b.deleted_at
      && any
          (λ c.
            not (c.id == b.id)
            && c.blocker_id == b.blocker_id
            && c.blocked_id == b.blocked_id
            && is_none c.deleted_at)
          rows

-- What the foreign keys FK_friendship_requester, FK_friendship_addressee, FK_user_block_blocker and
-- FK_user_block_blocked lead to.
unfoldable pub has_user : ℕ → Db → Bool
unfolding contains
has_user user_id db = contains user_id db.users

-- `save` of a row that was loaded, whose members stay as they are or change places, and of a new one.
unfoldable pub save_friendship : Friendship → Action Db Friendship
save_friendship f db =
    if refuses_friendship f db.friendships
    then (err query_failed, db)
    else (ok f, record db { friendships = save_row friendship_id f db.friendships })

unfoldable pub insert_friendship : Friendship → Action Db Friendship
insert_friendship f db =
    if refuses_friendship f db.friendships
    then (err query_failed, db)
    else if not (has_user f.requester_id db)
    then (err (reference_failed f.requester_id), db)
    else if not (has_user f.addressee_id db)
    then (err (reference_failed f.addressee_id), db)
    else (ok f, record db { friendships = f ∷ db.friendships })

unfoldable pub save_block : UserBlock → Action Db UserBlock
save_block b db =
    if refuses_block b db.blocks
    then (err query_failed, db)
    else (ok b, record db { blocks = save_row block_row_id b db.blocks })

unfoldable pub insert_block : UserBlock → Action Db UserBlock
insert_block b db =
    if refuses_block b db.blocks
    then (err query_failed, db)
    else if not (has_user b.blocker_id db)
    then (err (reference_failed b.blocker_id), db)
    else if not (has_user b.blocked_id db)
    then (err (reference_failed b.blocked_id), db)
    else (ok b, record db { blocks = b ∷ db.blocks })
