-- ===== src/Lib.antt =====
-- The backend of STO Info, a NestJS application over PostgreSQL (src/ of the repository). The parts that
-- are modelled here:
--
--   Community      members, friendships and blocks (src/community): friendship.service.ts,
--                  block.service.ts and public-member.service.ts. Community/Data holds the rows and the
--                  constraints of the tables, Members, Blocks, Friends, Friendships and
--                  Relationships the operations, one function for each method, under its name in
--                  snake case.
--   AccessControl  roles, permissions, overrides and limits (src/access-control): Resolve is
--                  access-control.service.ts, limit.service.ts and permissions.guard.ts, Admin
--                  and Exemptions are access-control-admin.service.ts.
--   Moderation     reports and disabled accounts (src/moderation): Reports is report.service.ts,
--                  Accounts is user-moderation.service.ts. Disabling an account revokes its sessions
--                  (Sessions) and hides its owner from the community (Community/Members).
--   Sessions       refresh tokens (src/user-refresh-token/user-refresh-token.service.ts).
--   Auth           registration, login, the exchange of refresh tokens and the reset of a password
--                  (src/auth/auth.service.ts), with auth/jwt.strategy.ts, auth/roles.guard.ts and
--                  user/constants/session-timeout.constants.ts. Accounts, Logins, Issuing and
--                  Passwords are its operations, Timeout the length of a session; a portal is the
--                  state, its tokens those of Sessions, its users those that the moderation disables.
--   Storytime      positions in ordered collections (src/storytime/shared/storytime-ordering.service.ts).
--                  Review is src/storytime/moderation: Acts is storytime-moderation.service.ts, Appeals,
--                  Reports and Targets the services of these names; a desk is their state.
--                  Slugs is storytime/shared/storytime-slug.service.ts with
--                  shared/utilities/slug.utility.ts; its state is the table of the retired slugs.
--   Captains       the order of an account's captains (src/sto/character/character-sort.utility.ts).
--   Tracking       figures that users track: Decimals is
--                  custom-tracking/shared/custom-tracking-decimal.utility.ts, which compares decimals
--                  as texts.
--   Users          the columns of src/user/entities/user.entity.ts that these read.
--
-- Base, Store and Texts are shared. A handler is a function from the state to a result and the new state; a
-- result is a value, an HTTP exception of @nestjs/common with its message, or a statement that the
-- database refuses. What was written before an exception stays written, since
-- every repository call commits by itself. A table is the list of its rows; a query is a function on the
-- list (Store). The unique indexes and checks of the migrations are tests on the row to be written beside
-- the others, and a write that they refuse fails (query_failed). So are the foreign keys of friendships,
-- blocks, overrides, exemptions and of a session that is created for a named user (reference_failed, with
-- the id that leads nowhere); an entry of the Storytime audit may be refused for any reason, which is a
-- parameter. The foreign keys of the other tables are not modelled, nor
-- is a key that the database draws twice where a theorem does not say so.
--
-- Identifiers, permission codes and configuration keys are only compared, so they are natural numbers; a
-- time is one as well. The time, the ids that the database draws, the environment, LOWER of the database,
-- the delivery of notifications, JSON web tokens, bcrypt, random tokens, the pattern of an address, the
-- secret store and localeCompare are parameters, the records named Env or arguments of their own; so are
-- lower case, NFKD and the removal of diacritics, one function.
--
-- Calls run one after the other: interleavings within a call are not modelled, nor are HTTP, validation
-- pipes, logging, the paged listings with their search, and the parts of the application not named above.
-- No recursion needs fuel: every loop runs over a list, but that for a free slug, which counts the two
-- hundred attempts of the source down.
pub mod AccessControl
pub mod Auth
pub mod Base
pub mod Captains
pub mod Community
pub mod Moderation
pub mod Sessions
pub mod Store
pub mod Storytime
pub mod Texts
pub mod Tracking
pub mod Users
