-- ===== src/Community/Views.antt =====
-- What two members see of one another agrees.
use mathlib.Core.Path.{fun_ext}
use sto_info_backend.Base.{
  ℕ, ◌≡◌, ◌≢◌, refl, ap, ◌∙◌, true, ◌||◌, Option, none, some, List, [], ◌∷◌, arith, ◌==◌,
  if◌then◌else◌,
}
use sto_info_backend.Store.{find?, any, keep, contains}
use sto_info_backend.Store.Laws.{find?-holds}
use sto_info_backend.Community.Data.{Friendship, Db, UserBlock, is_between, is_block_between}
use sto_info_backend.Community.Blocks.{
  is_own_block_of, find_own_block, is_blocked_between, touches, collect_others,
  get_blocked_user_ids,
}
use sto_info_backend.Store.Sets.{set_add, contains-set_add}
use sto_info_backend.Community.Friends.{find_friendship_between}
use sto_info_backend.Community.Relationships.{
  RelationshipStatus, request_sent, request_received, blocked, Relationship, no_relationship,
  to_relationship, of_friendship, of_block, get_relationship,
}
use sto_info_backend.Community.Safety.{Reach, IsEmpty, blocked_apart}

-- How a relationship reads from the other side.
abbrev pub mirror : RelationshipStatus → RelationshipStatus
mirror request_sent = request_received
mirror request_received = request_sent
mirror s = s

is_between_comm : (u v : ℕ) (f : Friendship) → is_between u v f ≡ is_between v u f
unfolding is_between
is_between_comm u v f = ground arith

find_friendship_between_comm :
    (u v : ℕ) (db : Db) → find_friendship_between u v db ≡ find_friendship_between v u db
unfolding find_friendship_between
find_friendship_between_comm u v db =
    ap (λ p. find? p db.friendships) (fun_ext (is_between_comm u v))

abbrev pub IsMirrored : Relationship → Relationship → Type 0
IsMirrored r s =
    (s.status ≡ mirror r.status)
    × (s.friendship_id ≡ r.friendship_id)
    × (r.block_id ≡ none)
    × (s.block_id ≡ none)

to_relationship-mirror :
    (u v : ℕ) (f : Friendship)
    → u ≢ v
    → is_between u v f ≡ true
    → IsMirrored (to_relationship f u) (to_relationship f v)
unfolding is_between to_relationship
to_relationship-mirror u v f apart e = ground arith

of_friendship-mirror :
    (u v : ℕ) (db : Db) (o : Option Friendship)
    → u ≢ v
    → find_friendship_between u v db ≡ o
    → IsMirrored (of_friendship o u) (of_friendship o v)
unfolding of_friendship find_friendship_between
of_friendship-mirror u v db none apart e = (refl, refl, refl, refl)
of_friendship-mirror u v db (some f) apart e =
    to_relationship-mirror u v f apart (find?-holds (is_between u v) db.friendships f e)

-- Two members neither of whom blocks the other see one relationship from its two sides: a request
-- sent by the one is received by the other, all else reads alike, and both are given the same row.
pub get_relationship-mirror :
    (u v : ℕ) (db : Db)
    → u ≢ v
    → find_own_block u v db ≡ none
    → find_own_block v u db ≡ none
    → IsMirrored (get_relationship u v db) (get_relationship v u db)
unfolding get_relationship of_block
get_relationship-mirror u v db apart mine theirs =
    let m = of_friendship-mirror u v db (find_friendship_between u v db) apart refl in
    rw (mine, theirs, ← find_friendship_between_comm u v db) (ground (arith, m))

is_blocked_of_own :
    (u v : ℕ) (bs : List UserBlock) (b : UserBlock)
    → find? (is_own_block_of u v) bs ≡ some b
    → any (is_block_between v u) bs ≡ true
unfolding find? any is_own_block_of is_block_between
is_blocked_of_own u v [] b h = cc
is_blocked_of_own u v (c ∷ bs) b h = ground (arith, is_blocked_of_own u v bs b)

blocked_between_of_own :
    (u v : ℕ) (db : Db) (b : UserBlock)
    → find_own_block u v db ≡ some b
    → is_blocked_between v u db ≡ true
unfolding find_own_block is_blocked_between
blocked_between_of_own u v db b h = is_blocked_of_own u v db.blocks b h

-- In every reachable state, a member whom another blocks, and who blocks them not, sees no
-- relationship at all, while the blocker sees the block and the row that lifts it.
pub blocked_view :
    (start db : Db)
    → IsEmpty start
    → Reach start db
    → (u v : ℕ) (b : UserBlock) → u ≢ v
    → find_own_block u v db ≡ some b
    → find_own_block v u db ≡ none
    → (get_relationship v u db ≡ no_relationship)
      × (get_relationship u v db
          ≡ record { status = blocked; friendship_id = none; block_id = some b.id })
unfolding get_relationship of_block
blocked_view start db empty r u v b apart own other =
    let is_blocked = blocked_between_of_own u v db b own in
    let gone = blocked_apart start db empty r v u is_blocked in rw (own, other, gone) (ground arith)

-- The member at the other end of a block.
abbrev other_end : ℕ → UserBlock → ℕ
other_end u b = if b.blocker_id == u then b.blocked_id else b.blocker_id

contains-collect_others :
    (n u : ℕ) (bs : List UserBlock) (seen : List ℕ)
    → contains n (collect_others u bs seen) ≡ (contains n seen || any (λ b. other_end u b == n) bs)
unfolding collect_others any
contains-collect_others n u [] seen = ground arith
contains-collect_others n u (b ∷ bs) seen =
    contains-collect_others n u bs (set_add (other_end u b) seen)
    ∙ ground (arith, contains-set_add n (other_end u b) seen)

other_end-touches :
    (u v : ℕ) (bs : List UserBlock)
    → u ≢ v
    → any (λ b. other_end u b == v) (keep (touches u) bs) ≡ any (is_block_between u v) bs
unfolding any keep touches is_block_between
other_end-touches u v [] apart = refl
other_end-touches u v (b ∷ bs) apart = ground (arith, other_end-touches u v bs apart)

-- The list that the registry hides from a member holds exactly the members with whom a live block
-- stands, whichever of the two made it; a caller who is not signed in has none hidden.
pub get_blocked_user_ids-is_blocked_between :
    (u v : ℕ) (db : Db)
    → u ≢ v
    → (contains v (get_blocked_user_ids (some u) db) ≡ is_blocked_between u v db)
      × (get_blocked_user_ids none db ≡ [])
unfolding get_blocked_user_ids is_blocked_between contains
get_blocked_user_ids-is_blocked_between u v db apart = (
  contains-collect_others v u (keep (touches u) db.blocks) []
      ∙ other_end-touches u v db.blocks apart,
  refl,
)
