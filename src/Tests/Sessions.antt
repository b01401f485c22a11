-- ===== src/Tests/Sessions.antt =====
-- Examples of what ends a session.
use mathlib.Core.Option
use video_site.Common.{◌≡◌, ◌≢◌, refl, false, none, some, List, [], ◌∷◌, count_where, str}
use video_site.Errors.{ok, err, authentication}
use video_site.Database.{UserRow}
use video_site.Entities.SecurityToken.{TokenPurpose}
use video_site.Database.Users
use video_site.Database.{fits}
use video_site.Database.Users.{find_by_id}
use video_site.Database.Sessions
use video_site.Database.Sessions.{get_by_jti, is_target}
use video_site.Database.Tokens
use video_site.Database.Tokens.Laws.{NoneOutstanding}
use video_site.Database.Sessions.Laws.{SignedOut}
use video_site.Database.AuditLog
use video_site.Service.{ChangePassword, ResetPassword, World, cached, AuthResult}
use video_site.Service.TokenService.{
  TokenPayload, decode, read_decoded, issue_access, issue_refresh,
}
use video_site.Service.Steps.{audit, user_cache_key}
use video_site.Auth.Verification.{update_user_row}
use video_site.Auth.ChangePassword.{
  set_password, spend_reset_links, revoke_sessions, replace_password, change_password,
}
use video_site.Auth.DeleteUser.{delete_user, deactivate}
use video_site.Auth.Authenticate.{authenticate}
use video_site.Auth.Refresh.{refresh, exchange, rotate, valid_only, active_only}
use video_site.Entities.Datetime.{utc, add_minutes}
use video_site.Entities.User.{User}
use video_site.Entities.SecurityToken.{is_usable}
use video_site.Database.Tokens.{get_by_hash}
use video_site.Auth.Verification.{usable_only}
use video_site.Auth.Register.{charge_address}
use video_site.Auth.Recovery.{reset_password, spend_reset}
use video_site.Moderation.{ban_user, ban_target, apply_ban}
use video_site.Entities.Session.{is_valid}
use video_site.Requests.{Request, run}
use video_site.Theorems.SignOut.{
  change_password_effect, delete_user-SignedOut, reset_password-SignedOut, ban_user-SignedOut,
}
use video_site.Theorems.Revoked.{change_password-authenticate, refresh_replay}
use video_site.Tests.{sample, device, world, tables, session, reset_link, user_of}

abbrev input : ChangePassword
input = record { current_password = "old"; new_password = "new"; new_password_repeat = "new" }

abbrev changed : World
changed = (change_password sample 1 input (some device) world).1

changes : (change_password sample 1 input (some device) world).0 ≡ ok 2
unfolding change_password replace_password set_password spend_reset_links revoke_sessions audit
    AuditLog.add Sessions.revoke_all_for_user Tokens.invalidate_for_user Users.update_password
    find_by_id Users.user_to_entity Users.get_by_id Users.roles_of fits
changes = refl

change_password_effect_example :
    SignedOut 1 changed.db.sessions
    × NoneOutstanding 1 TokenPurpose.password_reset changed.db.security_tokens
    × (cached changed.cache (user_cache_key 1) ≡ none)
    × (2 ≡ count_where (is_target 1 none) world.db.sessions)
    × (Option.map (λ (r : UserRow). r.password_hash) (find_by_id changed.db 1)
        ≡ some (sample.hash_password 0 "new"))
change_password_effect_example = change_password_effect sample 1 input (some device) world 2 changes

abbrev payload : TokenPayload
payload = record {
  user_id = 1;
  jti = "jti-1";
  token_type = "access";
  expires_at = utc 1_000_000_000;
}

abbrev between : List Request
between = Request.logout "access-1" none ∷ Request.list_users ∷ []

decodes : (w : World) → (decode sample "access-1" w).0 ≡ ok payload
unfolding decode read_decoded
decodes w = refl

found :
    get_by_jti changed.db "jti-1"
    ≡ some (record (session 3 1 "jti-1") { revoked_at = some (utc 1_000_003) })
unfolding change_password replace_password set_password spend_reset_links revoke_sessions audit
    AuditLog.add Sessions.revoke_all_for_user Tokens.invalidate_for_user Users.update_password
    find_by_id Users.user_to_entity Users.get_by_id Users.roles_of get_by_jti fits
found = refl

change_password-authenticate_example :
    (authenticate sample "access-1" (run sample between changed)).0
    ≡ err (authentication "Session is no longer valid")
change_password-authenticate_example =
    change_password-authenticate sample 1 input (some device) world 2
      (record (session 3 1 "jti-1") { revoked_at = some (utc 1_000_003) }) between "access-1"
      payload changes found refl (decodes (run sample between changed)) refl

abbrev refreshed : AuthResult
refreshed = record {
  tokens = record {
    access_token = "signed";
    refresh_token = "signed";
    token_type = "bearer";
    access_expires_at = add_minutes (utc 1_000_004) 15;
    refresh_expires_at = add_minutes (utc 1_000_005) 43_200;
  };
  user = user_of 1 "ann@x" "ann";
}

refreshes : (refresh sample "refresh-1" none world).0 ≡ ok refreshed
unfolding refresh exchange rotate decode read_decoded valid_only active_only issue_access
    issue_refresh is_valid get_by_jti Users.get_by_id Users.user_to_entity Users.roles_of find_by_id
    Sessions.add Sessions.revoke str AuditLog.add fits Sessions.fits_columns
refreshes = refl

refresh_payload :
    (w : World) → (decode sample "refresh-1" w).0 ≡ ok (record payload { token_type = "refresh" })
unfolding decode read_decoded
refresh_payload w = refl

refresh_replay_example :
    (refresh sample "refresh-1"
      (some device)
      (run sample between (refresh sample "refresh-1" none world).1)).0
    ≡ err (authentication "Refresh session is no longer valid")
refresh_replay_example =
    refresh_replay sample world "refresh-1" none (some device) refreshed
      (record payload { token_type = "refresh" }) between refreshes (refresh_payload world)
      (refresh_payload (run sample between (refresh sample "refresh-1" none world).1))

deletes : (delete_user sample 1 (some device) world).0 ≡ ok tt
unfolding delete_user deactivate revoke_sessions update_user_row audit AuditLog.add Users.update
    Users.get_by_id Users.user_to_entity Users.roles_of find_by_id Users.is_taken
    Sessions.revoke_all_for_user fits
deletes = refl

delete_user-SignedOut_example : SignedOut 1 (delete_user sample 1 (some device) world).1.db.sessions
delete_user-SignedOut_example = delete_user-SignedOut sample 1 (some device) world deletes

abbrev reset_input : ResetPassword
reset_input = record { token = "link"; password = "new"; password_repeat = "new" }

resets : (reset_password sample reset_input none world).0 ≡ ok tt
unfolding reset_password spend_reset charge_address set_password spend_reset_links audit
    AuditLog.add usable_only active_only is_usable get_by_hash Users.update_password Users.get_by_id
    Users.user_to_entity Users.roles_of find_by_id Sessions.revoke_all_for_user
    Tokens.invalidate_for_user Tokens.mark_used fits
resets = refl

link_found : get_by_hash tables "#link" TokenPurpose.password_reset ≡ some reset_link
unfolding get_by_hash
link_found = refl

reset_password-SignedOut_example :
    SignedOut 1 (reset_password sample reset_input none world).1.db.sessions
    × NoneOutstanding 1 TokenPurpose.password_reset
        (reset_password sample reset_input none world).1.db.security_tokens
reset_password-SignedOut_example =
    reset_password-SignedOut sample reset_input none world reset_link resets link_found

abbrev ann : User
ann = user_of 1 "ann@x" "ann"

abbrev bob : User
bob = user_of 2 "bob@x" "bob"

abbrev banned : User
banned = record bob { is_active = false; updated_at = some (utc 0) }

bans : (ban_user sample ann 2 (some "spam") none world).0 ≡ ok banned
unfolding ban_user ban_target apply_ban revoke_sessions update_user_row audit AuditLog.add
    Users.update Users.get_by_id Users.user_to_entity Users.roles_of find_by_id Users.is_taken
    Sessions.revoke_all_for_user fits
bans = refl

bob_found : Users.get_by_id tables 2 ≡ some bob
unfolding Users.get_by_id Users.user_to_entity Users.roles_of find_by_id
bob_found = refl

ban_user-SignedOut_example :
    SignedOut 2 (ban_user sample ann 2 (some "spam") none world).1.db.sessions
    × (cached (ban_user sample ann 2 (some "spam") none world).1.cache (user_cache_key 2) ≡ none)
    × (banned.is_active ≡ false)
    × (ann.id ≢ 2)
    × (bob.is_superuser ≡ false)
ban_user-SignedOut_example =
    ban_user-SignedOut sample ann 2 (some "spam") none world banned bob bans bob_found refl
