-- ===== src/Gateway/Examples.antt =====
-- A key that guesses wrong: tests, and the theorems at work.
use Prim.Native.Char.{Char, code}
use hquizlet_platform.Prelude.{
  ℕ, ◌+◌, ◌-◌, ◌*◌, ◌/◌, ◌<◌, ◌≤◌, ◌≡◌, ◌↔◌, refl, Bool, ◌&&◌, String, List, [], ◌∷◌, Option, none,
  some, length, any, arith, ltb, leb, ◌==◌, str_eq, if◌then◌else◌,
}
use hquizlet_platform.Prelude.Int.{pos}
use hquizlet_platform.Prelude.Decimal.{format_int}
use hquizlet_platform.Authz.Principal.{contains, org_entry}
use hquizlet_platform.Authz.Headers.{format_org_role}
use hquizlet_platform.Authz.Headers.Words.{SparesAscii}
use hquizlet_platform.Auth.Model.{Identity}
use hquizlet_platform.Gateway.Identity.{Headers, inject_identity_headers, principal_from_request}
use hquizlet_platform.Gateway.Identity.Delivered.{verified_actor_is_delivered}
use hquizlet_platform.Gateway.Limiter.{
  FloatOps, Rule, bucket_of, put as put_bucket, drop_idle, evict_locked, full, refill, spend, allow,
}
use hquizlet_platform.Gateway.Limiter.Bounded.{Call, allow_all, flood_bounded}
use hquizlet_platform.Gateway.Tokens.{
  entry_of as entry_of_token, get, delete, set_entry, sweep, verify_identity, Event, verifies,
  sweeps, step, run,
}
use hquizlet_platform.Gateway.Tokens.Fresh.{refused_token_expires}
use hquizlet_platform.Gateway.Failures.{
  FailureEntry, Entries, entry_of, put, purge, blocked, record_failure,
}
use hquizlet_platform.Gateway.Failures.Counting.{record_all, failures_of, limit_blocks}

abbrev first : FailureEntry
first = record { window_start = 100; count = 1 }

abbrev tracked : Entries
tracked = ("ip1", first) ∷ []

abbrev guesses : List (String × ℕ)
guesses = ("ip1", 110) ∷ ("ip2", 120) ∷ ("ip1", 130) ∷ []

-- The window of ip1 is over at 1100, and ip2 is not tracked, since there is room for one key.
over_at_end : blocked (record_all 1 1000 tracked guesses) "ip1" 3 1000 1100 ≡ none
unfolding blocked record_failure entry_of put purge
over_at_end = refl

blocked_before : blocked (record_all 1 1000 tracked guesses) "ip1" 3 1000 900 ≡ some 1000000000
unfolding blocked record_failure entry_of put purge
blocked_before = refl

limit_blocks_example :
    (blocked (record_all 1 1000 tracked guesses) "ip1" 3 1000 900 ≡ none)
    ↔ (failures_of "ip1" guesses + 1 < 3)
unfolding entry_of
limit_blocks_example =
    limit_blocks 1 3 1000 900 tracked "ip1" guesses first (omega arith) (omega arith) refl refl refl

abbrev printing : Char → Bool
printing c = leb (code c) 32

printing-SparesAscii : SparesAscii printing
printing-SparesAscii c h = ground arith

abbrev teacher_identity : Identity
teacher_identity = record {
  user_id = 12;
  email = "t@x.vn";
  name = "Ty";
  role = "user";
  platform_roles = "Teacher" ∷ "Student" ∷ [];
  org_roles = "7:OrgAdmin" ∷ "9:OrgTeacher" ∷ [];
  expires_at = 5000;
}

abbrev teacher_grants : List (ℕ × String)
teacher_grants = (7, "OrgAdmin") ∷ (9, "OrgTeacher") ∷ []

-- The client claims to be user 1, an administrator.
abbrev forged : Headers
forged = ("X-User-ID", "1") ∷ ("X-User-Roles", "PlatformAdmin") ∷ []

verified_actor_is_delivered_example :
    let p =
      principal_from_request printing (inject_identity_headers none 0 teacher_identity forged) in
    (p.user_id ≡ pos 12)
    × (p.legacy_role ≡ "user")
    × (p.platform_roles ≡ "Teacher" ∷ "Student" ∷ [])
    × (contains (org_entry (pos 9) p.org_roles) "OrgTeacher"
        ≡ any (λ e. (e.0 == 9) && str_eq e.1 "OrgTeacher") teacher_grants)
unfolding format_org_role format_int
verified_actor_is_delivered_example =
    verified_actor_is_delivered printing none 0 teacher_identity forged teacher_grants 9
      "OrgTeacher" printing-SparesAscii (omega arith) (refl, (refl, tt))
      ((omega arith, omega arith, refl), ((omega arith, omega arith, refl), tt)) refl

abbrev login_rule : Rule
login_rule = record { name = "auth.login.ip"; limit = 10; window = 60000000000; burst = 0 }

-- Whole tokens in place of floating point.
abbrev whole : FloatOps ℕ
whole = record {
  from_int = λ n. n;
  seconds = λ d. d / 1000000000;
  add = λ a b. a + b;
  sub = λ a b. a - b;
  mul = λ a b. a * b;
  div = λ a b. a / b;
  min = λ a b. if leb a b then a else b;
  less = ltb;
  duration = λ n. n;
}

abbrev attempt : String → ℕ → Call ℕ
attempt key now = record { key = key; rule = login_rule; now = now; order = λ bs. bs }

one_bucket :
    (allow whole (λ bs. bs) 1 "b" login_rule 200 (("a", full whole login_rule 100) ∷ [])).1 ≡ none
unfolding allow bucket_of put_bucket evict_locked refill spend drop_idle
one_bucket = refl

flood_bounded_example :
    length (allow_all whole 1 (attempt "a" 100 ∷ attempt "b" 200 ∷ attempt "c" 300 ∷ []) []) ≤ 1
flood_bounded_example =
    flood_bounded whole 1 (attempt "a" 100 ∷ attempt "b" 200 ∷ attempt "c" 300 ∷ [])
      ((λ _. refl), ((λ _. refl), ((λ _. refl), tt))) (omega arith)

-- The auth service accepts the token until 5000.
abbrev answers : ℕ → String → Option Identity
answers t token = if ltb t 5000 && str_eq token "tk" then some teacher_identity else none

abbrev traffic : List Event
traffic = verifies "tk" 4000 4100 4200 ∷ sweeps 4300 ∷ []

still_cached :
    (verify_identity (λ t. t) answers "tk" 6000 6001 6002 (run (λ t. t) answers traffic [])).1
    ≡ some teacher_identity
unfolding verify_identity run step get entry_of_token set_entry delete sweep
still_cached = refl

answers_refuse : (t : ℕ) → 5000 ≤ t → answers t "tk" ≡ none
answers_refuse t h = ground arith

refused_token_expires_example :
    (verify_identity
      (λ t. t)
      answers
      "tk"
      70000000000
      70000000001
      70000000002
      (run (λ t. t) answers traffic [])).1
    ≡ none
refused_token_expires_example =
    refused_token_expires (λ t. t) answers "tk" 5000 traffic 70000000000 70000000001 70000000002
      (λ a b e. e) answers_refuse (omega arith) (omega arith) (omega arith)
