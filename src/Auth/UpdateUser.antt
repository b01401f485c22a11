-- ===== src/Auth/UpdateUser.antt =====
-- usecases/update_user_usecase.py.
use video_site.Common.{ℕ, String, Option, none, some, ◌==◌, text_eq, is_some, strip, if◌then◌else◌}
use video_site.Errors.{user_not_found, email_already_exists, username_already_exists}
use video_site.Entities.User.{User, is_email_verified}
use video_site.Database.Users
use video_site.Service.{
  External, UpdateUser, Action, ◌>>=◌, ◌>>◌, pure, or_raise, raise_if, query, commit, cache_delete,
  transaction,
}
use video_site.Service.Steps.{normalized, user_cache_key}
use video_site.Auth.Verification.{issue_verification, send_verification, update_user_row}

-- A new address arrives unverified; an address in use is refused.
unfoldable pub change_email : User → String → Action User
change_email user email = if email == user.email then pure user else do
  clash ← query (λ db. Users.get_by_email db email)
  raise_if (is_some clash) email_already_exists
  pure (record user { email = email; email_verified_at = none })

unfoldable pub change_username : User → String → Action User
change_username user username = if username == user.username then pure user else do
  clash ← query (λ db. Users.get_by_username db username)
  raise_if (is_some clash) username_already_exists
  pure (record user { username = username })

-- A field that is `None` stays as it is.
abbrev pub change_display_name : User → Option String → User
change_display_name user none = user
change_display_name user (some name) = record user { display_name = some name }

abbrev pub when_given : User → Option String → (String → Action User) → Action User
when_given user none change = pure user
when_given user (some text) change = change text

module _ (ext : External) where
  -- `pending_verification`: a fresh link for an account that is not verified.
  unfoldable pub renew_verification : User → Action (Option (String × String))
  renew_verification user =
      if is_email_verified user
      then pure none
      else do secret ← issue_verification ext user.id; pure (some (user.email, secret))

  unfoldable pub save_profile : ℕ → UpdateUser → Action (User × Option (String × String))
  save_profile user_id input = do
    account ← query (λ db. Users.get_by_id db user_id)
    user ← or_raise account user_not_found
    readdressed ← when_given user input.email (λ email. change_email user (normalized ext email))
    renamed ←
        when_given readdressed input.username (λ name. change_username readdressed (strip name))
    updated ← update_user_row ext (change_display_name renamed input.display_name)
    pending ← renew_verification updated
    commit
    pure (updated, pending)

  unfoldable pub send_pending : Option (String × String) → Action (Unit {0})
  send_pending none = pure tt
  send_pending (some (email, secret)) = send_verification ext email secret

  -- `UpdateUserUseCase.__call__`.
  unfoldable pub update_user : ℕ → UpdateUser → Action User
  update_user user_id input = do
    saved ← transaction (save_profile user_id input)
    cache_delete (user_cache_key user_id)
    send_pending saved.1
    pure saved.0
