-- ===== src/Tests/Accounts.antt =====
-- Examples of what the owner of an account can do.
use video_site.Common.{◌≡◌, ◌≢◌, refl, none, some, arith, text_eq, strip, str}
use video_site.Errors.{ok}
use video_site.Entities.Datetime.{utc}
use video_site.Entities.User.{User}
use video_site.Database.Users
use video_site.Database.Tokens
use video_site.Service.{UpdateUser}
use video_site.Service.Steps.{normalized}
use video_site.Service.TokenService.{generate}
use video_site.Auth.Verification.{update_user_row, issue_verification, send_verification}
use video_site.Auth.UpdateUser.{
  update_user, save_profile, change_email, change_username, renew_verification, send_pending,
}
use video_site.Theorems.Accounts.{address_of, update_user_email}
use video_site.Tests.{sample, world, tables, user_of}

abbrev input : UpdateUser
input = record { username = none; display_name = none; email = some "new@x" }

abbrev ann : User
ann = user_of 1 "ann@x" "ann"

abbrev moved : User
moved = record ann { email = "new@x"; updated_at = some (utc 0) }

ann_found : Users.get_by_id tables 1 ≡ some ann
unfolding Users.get_by_id Users.user_to_entity Users.roles_of Users.find_by_id
ann_found = refl

other_address : normalized sample "new@x" ≢ ann.email
unfolding strip
other_address = ground (arith, text_eq.beq_iff (normalized sample "new@x") ann.email)

moves : (update_user sample 1 input world).0 ≡ ok moved
unfolding update_user save_profile change_email change_username update_user_row Users.update
    Users.is_taken renew_verification issue_verification send_verification send_pending generate
    Users.get_by_id Users.get_by_email Users.user_to_entity Users.roles_of Users.find_by_id
    Tokens.add Tokens.invalidate_for_user strip str
moves = refl

update_user_email_example :
    (address_of (update_user sample 1 input world).1.db 1 ≡ some (normalized sample "new@x", none))
    × (moved.email ≡ normalized sample "new@x")
    × (moved.email_verified_at ≡ none)
    × (Users.get_by_email tables (normalized sample "new@x") ≡ none)
update_user_email_example =
    update_user_email sample 1 input "new@x" world ann moved ann_found refl other_address moves
