-- ===== src/Tests/Recovered.antt =====
-- An example of a reset by the mailed link.
use video_site.Common.{ℕ, ◌+◌, ◌*◌, ◌<◌, str, ◌≡◌, refl, none, some, arith}
use video_site.Errors.{Result, ok, too_many_requests}
use video_site.Database.{UserRow}
use video_site.Database.Users
use video_site.Database.Tokens
use video_site.Database.{fits}
use video_site.Theorems.Widths.{FitsAudit}
use video_site.Service.{device_or_empty, ResetPassword, World}
use video_site.Service.TokenService.{generate}
use video_site.Auth.Register.{charge_address}
use video_site.Auth.Refresh.{active_only}
use video_site.Auth.ChangePassword.{spend_reset_links}
use video_site.Auth.Recovery.{prepare_reset, issue_reset, reset_password}
use video_site.Theorems.Recovered.{prepare_reset-reset_password}
use video_site.Tests.{sample, world, user_of}

abbrev issued : World
issued = (prepare_reset sample "ann@x" world).1

abbrev input : ResetPassword
input = record { token = "secret-1"; password = "new"; password_repeat = "new" }

abbrev guarded : Result (Unit {0}) × World
guarded =
    charge_address sample sample.settings.reset_password_ip_policy "reset-password:ip:"
      too_many_requests none issued

-- The secret is issued, its time is not over, and the account is the one of its email and of its id.
prepared :
    ((prepare_reset sample "ann@x" world).0 ≡ ok (some "secret-1"))
    × (Users.get_by_email world.work "ann@x" ≡ some (user_of 1 "ann@x" "ann"))
    × (Users.get_by_id world.work 1 ≡ some (user_of 1 "ann@x" "ann"))
    × (guarded.0 ≡ ok tt)
    × (sample.utc_now guarded.1.calls < sample.utc_now 2 + 30 * 60 * 1_000_000)
unfolding charge_address prepare_reset issue_reset spend_reset_links generate active_only Tokens.add
    Tokens.invalidate_for_user Users.get_by_email Users.get_by_id Users.find_by_id
    Users.user_to_entity Users.roles_of str
prepared = (refl, refl, refl, refl, omega arith)

fitting : FitsAudit (device_or_empty none)
unfolding fits
fitting = (refl, refl)

prepare_reset-reset_password_example :
    ((reset_password sample input none issued).0 ≡ ok tt)
    × (n : ℕ) × (row : UserRow) × (Users.find_by_id (reset_password sample input none issued).1.db 1
        ≡ some row)
    × (row.password_hash ≡ sample.hash_password n "new")
prepare_reset-reset_password_example =
    prepare_reset-reset_password sample "ann@x" "secret-1" input none world issued
      (user_of 1 "ann@x" "ann") prepared.1 prepared.2 prepared.0 refl refl refl fitting prepared.3
      prepared.4
