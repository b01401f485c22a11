-- ===== src/Tests/Signup.antt =====
-- An example of a signup, and of the sign-in that follows it.
use video_site.Common.{ℕ, ◌≤◌, ◌≡◌, refl, false, none, some, any, ◌==◌, text_eq, strip, str}
use video_site.Errors.{ok}
use video_site.Entities.Datetime.{utc}
use video_site.Entities.User.{User}
use video_site.Database.Sessions
use video_site.Database.Users
use video_site.Database.{fits}
use video_site.Database.Roles
use video_site.Database.Tokens
use video_site.Database.AuditLog
use video_site.RateLimit
use video_site.Service.{External, RegisterUser, World, AuthResult}
use video_site.Service.Steps.{audit, limiter_hit, limiter_peek, normalized}
use video_site.Service.TokenService.{generate}
use video_site.Auth.Verification.{issue_verification, send_verification}
use video_site.Auth.Register.{register, create_account, add_user, grant_default, charge_address}
use video_site.Auth.Login.{login, guard_ip, guard_account}
use video_site.Theorems.Widths.{FitsSession}
use video_site.Theorems.Signup.{register-login}
use video_site.Tests.{sample, world, device, user_of}

abbrev outside : External
outside = record sample { uuid4_hex = λ n. "fresh" }

abbrev input : RegisterUser
input = record {
  email = " eve@x ";
  username = "eve";
  password = "secret";
  password_repeat = "secret";
  display_name = none;
  visitor_id = none;
}

abbrev eve : User
eve = record (user_of 7 "eve@x" "eve") {
  password_hash = "hashed:secret";
  visitor_id = none;
  created_at = some (utc 2);
  updated_at = some (utc 2);
}

abbrev after : World
after = (register outside input (some device) world).1

-- The signup succeeds, the guards of the login let it pass, and the jti to come is a new one.
signed_up :
    ((register outside input (some device) world).0 ≡ ok eve)
    × ((guard_ip outside (some "10.0.0.1") after).0 ≡ ok tt)
    × ((guard_account outside
          (normalized outside " eve@x ")
          (guard_ip outside (some "10.0.0.1") after).1).0
        ≡ ok tt)
    × ((n : ℕ)
        → after.calls ≤ n
        → any (λ s. s.jti == outside.uuid4_hex n) after.db.sessions ≡ false)
unfolding register create_account add_user grant_default charge_address issue_verification
    send_verification generate audit limiter_hit RateLimit.hit RateLimit.counter_of
    RateLimit.charged RateLimit.decide RateLimit.set_counter Users.add Users.get_by_email
    Users.get_by_username Users.get_by_id Users.find_by_id Users.user_to_entity Users.roles_of
    Roles.get_by_name Tokens.add Tokens.invalidate_for_user AuditLog.add strip str guard_ip
    guard_account limiter_peek RateLimit.peek fits Sessions.fits_columns
signed_up = (refl, refl, refl, λ n later. refl)

fitting : FitsSession device
unfolding fits
fitting = (refl, refl, refl, refl)

register-login_example :
    (result : AuthResult) × ((login outside
        (record { email = " eve@x "; password = "secret" })
        (some device)
        after).0
      ≡ ok result)
    × (result.user.id ≡ 7)
register-login_example =
    register-login outside input (some device) (some device) world eve (λ n. refl) signed_up.0
      signed_up.1 signed_up.2 signed_up.3 fitting
