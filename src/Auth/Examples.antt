-- ===== src/Auth/Examples.antt =====
-- An administrator disables a student, whose session ends: tests, and the theorems at work.
use Prim.Native.Char.{code}
use hquizlet_platform.Prelude.{
  ◌≡◌, ◌≢◌, refl, true, false, [], ◌∷◌, none, some, any, arith, str_eq, leb, ◌||◌,
}
use hquizlet_platform.Prelude.Int.{pos}
use hquizlet_platform.Authz.Actions.{iam_assign_role, iam_revoke_role, user_disable}
use hquizlet_platform.Authz.Roles.{platform_admin, student}
use hquizlet_platform.Authz.Resource.{arn, match_resource, match_action}
use hquizlet_platform.Authz.Principal.{org_role_keys, resolved_platform_roles, effective_role_keys}
use hquizlet_platform.Authz.Policies.{managed_policies, find_policy}
use hquizlet_platform.Authz.Evaluator.{eval_conditions, applies, scan_statements, scan_roles, can}
use hquizlet_platform.Auth.Model.{User, Session, ok, no_faults, AuthFns, Identity}
use hquizlet_platform.Auth.Sessions.{
  user_by_email, user_by_id, session_of, org_role_entries, load_platform_roles, legacy_role,
  actor_of, verified_identity, new_session,
}
use hquizlet_platform.Auth.Accounts.{login}
use hquizlet_platform.Auth.Iam.{require_platform, assign_role}
use hquizlet_platform.Auth.Iam.Removals.{revoke_role, set_user_disabled}
use hquizlet_platform.Auth.Organizations.{slugify, slug_of, vietnamese_fold}
use hquizlet_platform.Auth.Runs.{World, logging_in, serve, Step, Reach}
use hquizlet_platform.Auth.Calm.{is_admin_user, is_admin_row}
use hquizlet_platform.Auth.Closed.{no_escalation}
use hquizlet_platform.Auth.Out.{disabled_user_is_out}
use hquizlet_platform.Auth.Audited.{IsLogged, privileged_changes_audited}
use hquizlet_platform.Auth.LoginGuard.{LoginEntry, Guard, entry_of, blocked}
use hquizlet_platform.Auth.LoginGuard.Locks.{fail_from, rotating_addresses_locked}

abbrev fns : AuthFns
fns = record {
  trim = λ s. s;
  lower = λ s. s;
  valid_email = λ _. true;
  hash_password = λ s. some s;
  matches = str_eq;
  hash_token = λ s. s;
  is_letter = λ c. leb b'a' (code c) || leb 192 (code c);
  is_digit = λ _. false;
  by_scope_and_role = λ rows. rows;
}

abbrev pupil : User
pupil = record {
  id = 7;
  name = "An";
  email = "an@x.vn";
  password_hash = "pw";
  role = "user";
  disabled = false;
}

abbrev start : World
start = record {
  db = record {
    users = pupil ∷ [];
    sessions = [];
    assignments = [];
    organizations = [];
    audit_log = [];
    next_user = 8;
    next_assignment = 1;
    next_organization = 1;
  };
  clock = 100;
  issued = [];
  used = [];
}

abbrev pupil_session : Session
pupil_session = record { user_id = 7; token_hash = "t1"; expires_at = 1100; revoked_at = none }

abbrev logged_in : World
logged_in = record start {
  db = record start.db { sessions = pupil_session ∷ [] };
  used = "t1" ∷ [];
}

login_step : Step fns start logged_in
unfolding serve login new_session user_by_email
login_step = Step.request start no_faults (logging_in 1000 (some "t1") "an@x.vn" "pw") refl

login_run : Reach fns start logged_in
login_run = Reach.next Reach.here login_step

abbrev pupil_identity : Identity
pupil_identity = record {
  user_id = 7;
  email = "an@x.vn";
  name = "An";
  role = "user";
  platform_roles = student ∷ [];
  org_roles = [];
  expires_at = 1100;
}

pupil_verified : verified_identity fns no_faults 100 logged_in.db "t1" ≡ ok (pupil_identity, pupil)
unfolding verified_identity session_of user_by_id load_platform_roles legacy_role org_role_entries
pupil_verified = refl

abbrev admin_identity : Identity
admin_identity = record pupil_identity {
  user_id = 1;
  role = "admin";
  platform_roles = platform_admin ∷ [];
}

disables :
    (set_user_disabled no_faults 100 (actor_of admin_identity) (pos 7) true logged_in.db).1 ≡ ok tt
unfolding set_user_disabled require_platform can scan_roles scan_statements applies eval_conditions
    effective_role_keys resolved_platform_roles org_role_keys match_resource match_action arn
    find_policy managed_policies
disables = refl

disabled_user_is_out_example :
    verified_identity fns no_faults 100
      (set_user_disabled no_faults 100 (actor_of admin_identity) (pos 7) true logged_in.db).0
      "t1"
    ≢ ok (pupil_identity, pupil)
unfolding session_of
disabled_user_is_out_example =
    disabled_user_is_out fns no_faults no_faults admin_identity (pos 7) "t1" pupil_session
      (pupil_identity, pupil) refl login_run disables refl refl Reach.here

no_escalation_example :
    let (db, reply) =
      assign_role no_faults
        (actor_of pupil_identity)
        (pos 7)
        "PlatformAdmin"
        ""
        none
        logged_in.db in
    (any is_admin_user logged_in.db.users ≡ false)
    × (any is_admin_row logged_in.db.assignments ≡ false)
    × (reply ≢ ok tt)
    × (db.assignments ≡ logged_in.db.assignments)
no_escalation_example =
    no_escalation fns no_faults "t1" pupil_identity pupil (pos 7) "PlatformAdmin" "" none
      (record { calm = record { users = refl; rows = refl }; issued = tt }) login_run pupil_verified

privileged_changes_audited_example :
    IsLogged
      (actor_of admin_identity)
      iam_assign_role
      logged_in.db
      (assign_role no_faults (actor_of admin_identity) (pos 7) "Teacher" "" none logged_in.db)
    × IsLogged
        (actor_of admin_identity)
        iam_revoke_role
        logged_in.db
        (revoke_role no_faults 100 (actor_of admin_identity) 3 logged_in.db)
    × IsLogged
        (actor_of admin_identity)
        user_disable
        logged_in.db
        (set_user_disabled no_faults 100 (actor_of admin_identity) (pos 7) true logged_in.db)
privileged_changes_audited_example =
    privileged_changes_audited no_faults 100 (actor_of admin_identity) logged_in.db (pos 7)
      "Teacher" "" none 3 true

abbrev nearly : LoginEntry
nearly = record { failures = 18; window_start = 1000; locked_until = 0 }

abbrev guard : Guard
guard = ("acct|an@x.vn", nearly) ∷ []

rotating_addresses_locked_example :
    blocked
      (λ s. s)
      "an@x.vn"
      "9.9.9.9"
      50000
      (fail_from (λ s. s) "an@x.vn" (("1.1.1.1", 2000) ∷ ("2.2.2.2", 3000) ∷ []) guard)
    ≢ none
unfolding entry_of
rotating_addresses_locked_example =
    rotating_addresses_locked (λ s. s) "an@x.vn" (("1.1.1.1", 2000) ∷ []) [] "2.2.2.2" "9.9.9.9"
      3000 50000 nearly guard refl refl (omega arith) (omega arith) (omega arith)

slug : slugify fns "-đại học  7-" ≡ "dai-hoc"
unfolding slugify slug_of vietnamese_fold
slug = refl
