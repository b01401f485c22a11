-- ===== src/Tests/Admission.antt =====
-- Examples of who gets in.
use video_site.Common.{◌≡◌, ◌⊎◌, refl, none, some, [], str, strip}
use video_site.Errors.{ok, err, integrity}
use video_site.Entities.Datetime.{utc, add_minutes}
use video_site.Entities.User.{User}
use video_site.Entities.Session.{AuthSession, is_valid}
use video_site.Database.Users
use video_site.Database.{fits}
use video_site.Database.Sessions
use video_site.Database.Sessions.{get_by_jti}
use video_site.Database.AuditLog
use video_site.RateLimit
use video_site.RateLimit.{Counters}
use video_site.Service.{AuthResult, Login}
use video_site.Service.TokenService.{
  TokenPayload, decode, read_decoded, issue_access, issue_refresh,
}
use video_site.Service.Steps.{audit, normalized, user_cache_key, limiter_peek, limiter_reset}
use video_site.Auth.Refresh.{valid_only, active_only}
use video_site.Auth.Authenticate.{authenticate, resolve, load_user}
use video_site.Auth.Login.{
  login, guard_ip, guard_account, check_credentials, open_session, admitted, account_key,
}
use video_site.Auth.Recovery.{forgot_password}
use video_site.Theorems.Admission.{
  Shown, authenticate_sound, login_clears, login_same, forgot_password_same,
}
use video_site.Tests.{sample, device, world, tables, user_of}

abbrev ann : User
ann = user_of 1 "ann@x" "ann"

accepts : (authenticate sample "access-1" world).0 ≡ ok ann
unfolding authenticate resolve load_user decode read_decoded valid_only active_only is_valid
    get_by_jti Users.get_by_id Users.user_to_entity Users.roles_of Users.find_by_id user_cache_key
    str
accepts = refl

authenticate_sound_example :
    (payload : TokenPayload) × (s : AuthSession) × Shown sample "access-1" world ann payload s
authenticate_sound_example = authenticate_sound sample "access-1" world ann accepts

abbrev opened : AuthResult
opened = record {
  tokens = record {
    access_token = "signed";
    refresh_token = "signed";
    token_type = "bearer";
    access_expires_at = add_minutes (utc 1_000_001) 15;
    refresh_expires_at = add_minutes (utc 1_000_002) 43_200;
  };
  user = ann;
}

abbrev credentials : Login
credentials = record { email = "ann@x"; password = "old" }

abbrev logged_in : AuthResult
logged_in = record opened {
  tokens = record {
    access_token = "signed";
    refresh_token = "signed";
    token_type = "bearer";
    access_expires_at = add_minutes (utc 1_000_002) 15;
    refresh_expires_at = add_minutes (utc 1_000_003) 43_200;
  };
}

logs_in : (login sample credentials none world).0 ≡ ok logged_in
unfolding login guard_ip guard_account limiter_peek limiter_reset check_credentials admitted
    open_session audit AuditLog.add Sessions.add issue_access issue_refresh Users.get_by_email
    Users.user_to_entity Users.roles_of str strip RateLimit.peek RateLimit.counter_of
    RateLimit.decide fits Sessions.fits_columns
logs_in = refl

login_clears_example :
    RateLimit.counter_of
      (login sample credentials none world).1.counters
      (account_key (strip "ann@x"))
    ≡ record { count = 0; expires_at = 0 }
login_clears_example = login_clears sample credentials none world logged_in logs_in

forgot_password_same_example :
    ((forgot_password sample "ann@x" none world).0
      ≡ (forgot_password sample "ann@x" none
          (record world { db = record tables { users = [] } })).0)
    ⊎ ((forgot_password sample "ann@x" none world).0 ≡ err integrity)
    ⊎ ((forgot_password sample "ann@x" none (record world { db = record tables { users = [] } })).0
        ≡ err integrity)
forgot_password_same_example =
    forgot_password_same sample "ann@x" none world (record tables { users = [] })

abbrev guess : Login
guess = record { email = "ann@x"; password = "wrong" }

-- Of the two databases one has the account, which has another password.
refused :
    (admitted sample (Users.get_by_email tables (normalized sample guess.email)) "wrong" ≡ none)
    × (admitted sample
          (Users.get_by_email (record tables { users = [] }) (normalized sample guess.email))
          "wrong"
        ≡ none)
unfolding admitted Users.get_by_email Users.user_to_entity Users.roles_of strip
refused = (refl, refl)

login_same_example :
    ((login sample guess (some device) world).0
      ≡ (login sample guess (some device) (record world { db = record tables { users = [] } })).0)
    × ((login sample guess (some device) world).1.counters
        ≡ (login sample guess
            (some device)
            (record world { db = record tables { users = [] } })).1.counters)
login_same_example =
    login_same sample guess (some device) world (record tables { users = [] }) refused.0 refused.1
