-- ===== src/Lib.antt =====
-- The HQuizlet platform: what its Go services decide, and that they decide it right.
--
-- The parts. packages/authz is the library with which every service asks whether an actor may
-- do an action on a resource. services/payment keeps a wallet for each user as a ledger of
-- credits and debits, takes deposits through SePay, sells study sets and says who has access to
-- them; its price handler asks packages/authz first, as Payment/Access.antt does. services/quiz
-- makes questions from the cards of a study set, marks answers, and runs live sessions on the
-- same questions. services/study runs quizzes whose solutions stay on the server.
-- services/class keeps the members of classes, and asks packages/authz with the role that a
-- member has in the class. services/auth knows who is behind a token and who may grant roles.
-- services/gateway stands in front of them all: it asks services/auth for the identity behind a
-- token, keeps the answer for a minute, writes the identity into the headers that every service
-- reads, and turns away keys that ask or guess too often.
--
-- Authz (packages/authz): Actions and Roles hold the constants and the types (actions.go,
-- roles.go), Policies the table of managedPolicies, Resource the matching of patterns
-- (resource.go: arn, match_resource, match_action), Principal the roles that count
-- (principal.go: effective_role_keys), Evaluator the decision (evaluator.go: can is Can,
-- eval_conditions is evalConditions, effective_actions is EffectiveActions). A Go map is the
-- list of its entries. The proofs stand below Evaluator: Decision, Tables (one pass over the
-- table of policies), Admin, Ownership, Scopes, Conditions; and below Resource: Wildcards.
-- Headers is the text of roles in headers (principal.go: FormatOrgRole, ParsePlatformRoles,
-- ParseOrgRoles), with unicode.IsSpace as an argument; Headers/Trips has the round trips.
--
-- Payment (services/payment/internal): Model has the rows of model/model.go and the tables of
-- migration/migration.go, as one record Db; Ledger the sums of repository/wallet_repo.go and
-- price_repo.go; Orders service/order_svc.go with repository/order_repo.go; Deposit
-- service/webhook_svc.go (settle is the transaction of CreditDepositIfPaidRef) and the credit
-- by an administrator; Purchase service/purchase_svc.go; Access service/access_svc.go and the
-- price handler http/handler/price.go. A call of the database may fail: an argument Faults says
-- which calls do, and a theorem holds for every such argument. World is the service at work:
-- Step is one transaction of one request, with what requests have read before (an order by its
-- code, a price), and Reach any sequence of them. A deposit or a purchase is one step since it
-- takes the lock (the row of the order, or the advisory lock of the user) before it reads what
-- it decides on. A commit whose answer is lost may have taken effect or not; the balance in the
-- answer to a purchase is read in the step of the purchase, so as right after its commit.
--
-- Quiz (services/quiz/internal): Shuffle, Engine and Marking are shuffle, Generate and Evaluate
-- of engine/engine.go, with seeds as numbers below 2^64 and the wrap-around written out. Live
-- is the live quiz: Leaderboard, Scores and Sessions.state_transition are LeaderboardSort,
-- ScoreAnswer and StateTransition of live/model/model.go; Sessions has the host's commands of
-- live/service/service.go over UpdateSessionCAS of live/repository/repository.go, where a
-- command acts on a copy of the session that it has read before (Room, Step); Answers is
-- SubmitAnswer and FinalizeScores on the rows of one session, with the database's rendering of
-- JSON as an argument: an answer is stored when its transaction commits, any of its lookups and
-- writes may fail, and FinalizeScores writes sums of answers that it has read before
-- (StoreStep); Questions the snapshot that CreateSession makes.
--
-- Study (services/study/internal): the protected quiz of service/protected_quiz.go. Model has
-- the records of model/model.go and model/quiz_session.go; Html is safeQuizHTML of
-- service/quiz_html.go, with html.Parse and html.EscapeString as arguments; Items is
-- sessionItems, Pages snapshotIndex, Answers validQuizAnswer, quizCorrect and quizPageItem,
-- View quizContent and buildView, Play access, ActWith, Peek and Audio on the state of a
-- session, Start newQuizSnapshot and Start. Store has the tables and transactions of
-- repository/quiz_session.go and quiz_snapshot.go, Progress the table learning_sessions with
-- its trigger and ProgressService.Save (service/progress.go). Runs is the service at work: Step
-- is one transaction of one request, of the hourly deletion of expired sessions or of the
-- deletion of a set, with any answer of the cache of snapshots and any failure. The functions
-- of strings are the argument TextFns, whose safe_html stands for safe_quiz_html; the JSON
-- decoder and the random bytes are arguments; an index out of range is the error panic. The
-- checks of access and of the rate limits stand before an action and change nothing that is
-- modelled, so a step may follow them or not. The proofs stand in Secrets and below Html,
-- Items, Pages, View, Play, Progress, Store and Runs.
--
-- Auth (services/auth/internal): Model has the rows of migration/migration.go and
-- model/model.go as one record AuthDb; Sessions is verifiedIdentity, newSession and
-- loadPlatformRoles of service/service.go and service/permissions.go over
-- repository/repository.go; Accounts is Register, Login, Logout, LogoutAll, Refresh,
-- UpdateProfile and ConfirmPassword; Iam is AssignRole of service/iam.go and Iam/Removals its
-- RevokeRole and SetUserDisabled, whose repository is the one of production with the
-- transactions of repository/iam_mutations.go; Organizations is service/organizations.go;
-- LoginGuard is http/login_guard.go. bcrypt, the hash of tokens, the test of addresses and the
-- functions of strings are the argument AuthFns. Runs is the service at work: Step is one
-- request, with any failures of its calls, a token that is verified, or time that passes, and
-- Reach any sequence of them; an actor of a request is an identity that was verified at some
-- time before, so also one that the gateway still has in its cache. A request is one step: two
-- requests that read before either writes are not interleaved. A token is drawn at random: a
-- step draws one that no step has drawn. The proofs stand in Escalation, Calm and Closed (no
-- new administrators), Verified, Revoked, Ended and Out (disabled users), Audited, and below
-- LoginGuard and Organizations.
--
-- Class (services/class/internal): Model has the rows of model/model.go; Members is
-- service/member.go over repository/member.go: AddMember, JoinByCode, UpdateRole, RemoveMember,
-- LeaveClass and authorize. An operation has two databases, the one that it has read and
-- decides on and the one that it writes to, so that requests at the same time are covered; the
-- reads of one operation are taken together. A Turn is a request with the calls that fail in
-- it. The proofs stand in Members/Rows and Members/Owner.
--
-- Gateway (services/gateway): Failures is the failureTracker of ratelimit.go, Limiter its
-- memoryLimiter, Tokens the cache of tokencache.go with verifyIdentity of main.go, and Identity
-- is injectIdentityHeaders of main.go with principalFromRequest of
-- services/study/internal/http/authz.go on the other side. A map is an association list, and
-- the order in which Go walks it an argument. The operations of floating point, in which a
-- bucket counts its tokens, are an argument, and nothing is assumed of them; a clock that goes
-- back adds nothing. A header has one value; the keyed hash of the signature is an argument.
--
-- Bounds: ids, amounts of stored rows and times are natural numbers, a request's amount is an
-- integer. Stored amounts are INTEGER columns, and the sum of a wallet is a Go int of 64 bits,
-- which a sum of such amounts does not fill. No function runs on fuel but format_int, whose
-- fuel n + 1 is more than the number n has digits, and sort_rounds, which counts the turns of
-- the outer loop, one for each entry, and pages_from, whose fuel is the number of items:
-- Pages/Groups.antt proves that it is enough and that more changes nothing.
--
-- Not modelled: the rest of the class service (creation and deletion of classes, assignments,
-- videos) and the file service, HTTP decoding beyond the identity headers, SQL text, SePay's
-- API (its answers are arguments), the answer of the study service about the owner of a set (an
-- argument of the payment service), the limits per user, import jobs, the cache of snapshots
-- (any answer of it is taken) and the management of sets and folders in the study service,
-- lists for display, log lines, time stamps of rows, and Redis and the events of the live quiz,
-- the codes by which players join, and in the gateway the proxies, the client address and the
-- table of public rules.
mod Prelude
pub mod Authz
pub mod Auth
pub mod Class
pub mod Payment
pub mod Quiz
pub mod Study
pub mod Gateway
