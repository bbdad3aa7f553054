-- ===== src/Lib.antt =====
-- feedbase-backend: a model of the server's own logic.
--
-- The program is a feedback board for many workspaces ("tenants"): an Express server over MySQL.
-- Visitors post, comment and vote on public boards; owners pay for an account plan; members sign
-- in. The model takes the code that decides something and states what it decides; the tables are
-- lists of rows, the SQL statements are functions on them, the clock and every environment
-- setting are arguments.
--
-- The parts, and the code that each file is about:
--   Plans, Plans/Usage      src/consts/plans.js and src/common/planGuard.js: the plan table, the
--                           price ids, the tier and the workspace usage of an account.
--   Plans/Direction         directionOf of src/main/billing/changePlan.js.
--   Tables                  the rows of feedboard_db.sql that accounts, plans and sessions use.
--   Accounts                src/common/accountBilling.js: the account row and the copy of it in
--                           every workspace the account owns, written in one transaction; and in
--                           Subscriptions what a subscription of Stripe makes of the account.
--   Sessions                src/common/sessions.js: sign-ins, one device or several by plan.
--   Cache                   src/common/cache.js: the bounded store with a time to live.
--   Counters                src/common/writeCounters.js: the caps on public writes per window.
--   FormToken               src/common/formToken.js: the signed time stamp in a public form.
--   Spam                    src/common/spamScore.js: the signals, their weights and the verdict.
--   Email                   src/common/emailQuality.js: the format of an address, throwaway inboxes
--                           and the cache of mail exchanger lookups.
--   Guard                   src/common/publicWriteGuard.js and src/common/guestIdentity.js: the
--                           gate that every public write passes.
--   Board                   the posts, votes and attachments of feedboard_db.sql, with Posting for
--                           src/main/public/createPublicPost.js, Votes for
--                           src/main/public/togglePublicVote.js, and Reviews for
--                           src/main/post/updatePostModeration.js, purgeSpam.js and
--                           setPostDuplicate.js there, and src/common/spamRetention.js.
--   Promo                   src/main/billing/redeemPromo.js: claims on promo codes and the plans
--                           that they grant.
--   Team                    src/main/invitations/invitations.js: invitations to a workspace, with
--                           Joining for their acceptance, Effects for what the handlers do to a
--                           team, and Seats, Spent, Links and Welcome for what
--                           follows.
--   Passwords               src/main/users/registerNewUser.js, userLogin.js and
--                           changeUserPassword.js there, and in Resetting passwordReset.js.
--   Workspaces              src/main/users/workspaces.js: creating workspaces, checking their names,
--                           listing them and switching between them.
--   Comments                src/main/comment and, in Climb and Creating,
--                           src/main/public/createPublicComment.js: comments and their threads.
--   Erasure                 src/common/accountDeletion.js and src/main/users/deleteAccount.js: what
--                           the end of an account takes with it.
--   Roles                   src/main/users/updateUserRole.js: who may be made an owner or a user.
--   Pagination              src/middlewares/pagination/paginationData.js: the page of a request.
-- Base, Text and Env hold what these share: lists and numbers, results with an error and the
-- chains of checks that give them, strings as lists of code units, and the settings read by
-- `Number(x) || fallback`.
--
-- How they interact: Plans reads Tables for the stored plan; Sessions asks Plans whether a
-- workspace may have several devices; Accounts writes the plan columns that Plans reads.
-- A public write goes through Guard, which charges Counters, verifies the FormToken, asks Email
-- about the address and scores the text by Spam; Board/Posting and Comments store what it lets pass.
-- Promo grants a plan by Accounts. Team asks Plans for the seats of a workspace and Email about an
-- address, and opens the session of a new member; Passwords signs in by Sessions; Workspaces asks
-- Plans for the cap of an account, and has Accounts copy its billing to a new workspace.
--
-- A handler is one step on its tables: what happens between requests is a sequence of such steps
-- (Team/Effects, Passwords/Shared, Comments/Younger), so two requests that interleave inside a
-- handler are not modelled.
--
-- Bounds. The digits of a number are made by recursion on a bound that the number itself gives
-- (Text/Decimal), with the round trip proved. The matches of the link pattern are found by one
-- pass whose counter says how many units the last match still covers. The walk to the top of a
-- thread runs on fuel, one turn more than there are comments, which is proved to be enough.
--
-- Not modelled: the collation of MySQL, which ignores case; failing queries, except where an
-- argument says which ones succeed; the rounding of fractions (a share is a pair of counts and is
-- compared exactly); fractional or negative settings; the foreign keys and what a deletion takes
-- along, except in Comments and Erasure; the texts of mails and notices. Lower-casing, the host of a URL,
-- digests and password hashes, random tokens and the name service are arguments, since they are
-- the platform's. List queries, the administration, the payment providers and the HTTP layer are
-- left out.
pub mod Base
pub mod Text
pub mod Env
pub mod Plans
pub mod Tables
pub mod Accounts
pub mod Cache
pub mod Sessions
pub mod Counters
pub mod FormToken
pub mod Email
pub mod Spam
pub mod Guard
pub mod Board
pub mod Promo
pub mod Pagination
pub mod Team
pub mod Passwords
pub mod Workspaces
pub mod Comments
pub mod Erasure
pub mod Roles
