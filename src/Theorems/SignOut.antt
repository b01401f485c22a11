-- ===== src/Theorems/SignOut.antt =====
-- What ends every login of an account, and that nothing that was issued before still works.
use mathlib.Core.Option
use video_site.Common.{
  ℕ, suc, String, ◌≡◌, ◌≢◌, refl, true, false, Option, none, some, arith, count_where, [], ◌∷◌,
  text_eq, inl, inr, Option-cases, suc, nat_eq,
}
use video_site.Errors.{Result, ok}
use video_site.Entities.User.{User}
use video_site.Entities.SecurityToken.{TokenPurpose, SecurityToken}
use video_site.Database.{Db, UserRow}
use video_site.Database.Users
use video_site.Database.Users.{find_by_id, rehashed_row}
use video_site.Database.Users.Laws.{find-rewrite, get_by_id_row}
use video_site.Database.Tokens
use video_site.Database.Tokens.Laws.{NoneOutstanding, invalidate-NoneOutstanding}
use video_site.Database.Sessions
use video_site.Database.Sessions.{is_target}
use video_site.Database.AuditLog
use video_site.Database.Sessions.Laws.{SignedOut, revoke_all-SignedOut}
use video_site.Service.{
  External, DeviceInfo, ChangePassword, ResetPassword, World, Cache, cached, uncache,
}
use video_site.Service.Steps.{audit, user_cache_key}
use video_site.Auth.ChangePassword.{
  set_password, spend_reset_links, revoke_sessions, replace_password, change_password,
}
use video_site.Database.Sessions.{get_by_jti}
use video_site.Database.Tokens.{get_by_hash}
use video_site.Auth.Refresh.{active_only}
use video_site.Auth.Verification.{usable_only}
use video_site.Auth.Recovery.{reset_password, spend_reset}
use video_site.Auth.Verification.{update_user_row}
use video_site.Auth.DeleteUser.{delete_user, deactivate}
use video_site.Theorems.Kept.Recovery.{charge_address_frame}
use video_site.Moderation.{ban_user, ban_target, apply_ban}

cached-uncache : (cache : Cache) (key : String) → cached (uncache cache key) key ≡ none
cached-uncache [] key = refl
cached-uncache ((k, u) ∷ rest) key = ground (arith, text_eq.beq_iff k key, cached-uncache rest key)

module _ (ext : External) (user_id : ℕ) (input : ChangePassword) (device : Option DeviceInfo)
    (w : World) (n : ℕ) (changed : (change_password ext user_id input device w).0 ≡ ok n) where
  abbrev after : World
  after = (change_password ext user_id input device w).1

  changed-SignedOut : SignedOut user_id after.db.sessions
  unfolding change_password replace_password set_password spend_reset_links revoke_sessions audit
      AuditLog.add
  changed-SignedOut = grind (arith, revoke_all-SignedOut)

  changed-NoneOutstanding :
      NoneOutstanding user_id TokenPurpose.password_reset after.db.security_tokens
  unfolding change_password replace_password set_password spend_reset_links revoke_sessions audit
      AuditLog.add Sessions.revoke_all_for_user
  changed-NoneOutstanding = grind (arith, invalidate-NoneOutstanding)

  changed_count : n ≡ count_where (is_target user_id none) w.db.sessions
  unfolding change_password replace_password set_password spend_reset_links revoke_sessions audit
      AuditLog.add Sessions.revoke_all_for_user Tokens.invalidate_for_user Users.update_password
  changed_count = grind arith

  changed_cache : cached after.cache (user_cache_key user_id) ≡ none
  unfolding change_password replace_password set_password spend_reset_links revoke_sessions audit
      AuditLog.add Sessions.revoke_all_for_user
  changed_cache = grind (arith, cached-uncache)

  changed_hash :
      Option.map (λ (r : UserRow). r.password_hash) (find_by_id after.db user_id)
      ≡ some (ext.hash_password w.calls input.new_password)
  unfolding change_password replace_password set_password spend_reset_links revoke_sessions audit
      AuditLog.add Sessions.revoke_all_for_user Tokens.invalidate_for_user Users.update_password
      find_by_id Users.user_to_entity
  changed_hash = elim (Option-cases (Users.get_by_id w.db user_id)) [
    | inl e ↦ ground arith
    | inr (user, e) ↦
        let (r, found, same, own) = get_by_id_row w.db user_id user e in
        grind (
          arith,
          find-rewrite user.id user_id
              (rehashed_row
                (record user { password_hash = ext.hash_password w.calls input.new_password })
                (ext.on_update (suc w.calls)))
              w.db.users (λ q. refl),
        )
  ]

  -- A password change that succeeds stores a hash of the new password for the account, leaves no
  -- session of the account that is not revoked, spends its reset links, drops the cached account,
  -- and hands back how many sessions it revoked.
  pub change_password_effect :
      SignedOut user_id after.db.sessions
      × NoneOutstanding user_id TokenPurpose.password_reset after.db.security_tokens
      × (cached after.cache (user_cache_key user_id) ≡ none)
      × (n ≡ count_where (is_target user_id none) w.db.sessions)
      × (Option.map (λ (r : UserRow). r.password_hash) (find_by_id after.db user_id)
          ≡ some (ext.hash_password w.calls input.new_password))
  change_password_effect =
      (changed-SignedOut, changed-NoneOutstanding, changed_cache, changed_count, changed_hash)

-- A deletion of an account that succeeds leaves it no session that is not revoked.
pub delete_user-SignedOut :
    (ext : External) (user_id : ℕ) (device : Option DeviceInfo) (w : World)
    → (delete_user ext user_id device w).0 ≡ ok tt
    → SignedOut user_id (delete_user ext user_id device w).1.db.sessions
unfolding delete_user deactivate revoke_sessions update_user_row audit AuditLog.add
delete_user-SignedOut ext user_id device w h = grind (arith, revoke_all-SignedOut)

user_id_of : (db : Db) (r : UserRow) → (Users.user_to_entity db r).id ≡ r.id
unfolding Users.user_to_entity
user_id_of db r = refl

spend_reset-SignedOut :
    (ext : External) (token_hash password : String) (device : Option DeviceInfo) (w : World)
    (token : SecurityToken) (user : User)
    → (spend_reset ext token_hash password device w).0 ≡ ok user
    → get_by_hash w.work token_hash TokenPurpose.password_reset ≡ some token
    → SignedOut token.user_id (spend_reset ext token_hash password device w).1.db.sessions
unfolding spend_reset set_password spend_reset_links audit AuditLog.add usable_only active_only
    Users.update_password
spend_reset-SignedOut ext token_hash password device w token user h found =
    elim (Option-cases (Users.get_by_id w.work token.user_id)) [
      | inl e ↦ grind arith
      | inr (u, e) ↦
          let (r, row, same, own) = get_by_id_row w.work token.user_id u e in
          grind (arith, revoke_all-SignedOut, user_id_of w.work r)
    ]

spend_reset-NoneOutstanding :
    (ext : External) (token_hash password : String) (device : Option DeviceInfo) (w : World)
    (token : SecurityToken) (user : User)
    → (spend_reset ext token_hash password device w).0 ≡ ok user
    → get_by_hash w.work token_hash TokenPurpose.password_reset ≡ some token
    → NoneOutstanding token.user_id TokenPurpose.password_reset
        (spend_reset ext token_hash password device w).1.db.security_tokens
unfolding spend_reset set_password spend_reset_links audit AuditLog.add usable_only active_only
    Users.update_password Sessions.revoke_all_for_user
spend_reset-NoneOutstanding ext token_hash password device w token user h found =
    elim (Option-cases (Users.get_by_id w.work token.user_id)) [
      | inl e ↦ grind arith
      | inr (u, e) ↦
          let (r, row, same, own) = get_by_id_row w.work token.user_id u e in
          grind (arith, invalidate-NoneOutstanding, user_id_of w.work r)
    ]

-- A ban of an active account that succeeds is by another account and of one that is no superuser.
-- It hands back the account deactivated, leaves it no session that is not revoked, and drops it
-- from the cache.
pub ban_user-SignedOut :
    (ext : External) (actor : User) (target_id : ℕ) (reason : Option String)
    (device : Option DeviceInfo) (w : World) (banned target : User)
    → (ban_user ext actor target_id reason device w).0 ≡ ok banned
    → Users.get_by_id w.db target_id ≡ some target
    → target.is_active ≡ true
    → SignedOut target_id (ban_user ext actor target_id reason device w).1.db.sessions
      × (cached (ban_user ext actor target_id reason device w).1.cache (user_cache_key target_id)
          ≡ none)
      × (banned.is_active ≡ false)
      × (actor.id ≢ target_id)
      × (target.is_superuser ≡ false)
unfolding ban_user ban_target apply_ban revoke_sessions update_user_row audit AuditLog.add
    Users.update Sessions.revoke_all_for_user
ban_user-SignedOut ext actor target_id reason device w banned target h found active =
    grind (arith, revoke_all-SignedOut, cached-uncache)

module _ (ext : External) (input : ResetPassword) (device : Option DeviceInfo) (w : World) where
  abbrev reset : Result (Unit {0}) × World
  reset = reset_password ext input device w

  -- A reset by the emailed link that succeeds leaves no session that is not revoked, and no reset
  -- link that is not spent, to the account that the link was issued for.
  pub reset_password-SignedOut :
      (token : SecurityToken)
      → reset.0 ≡ ok tt
      → get_by_hash w.db (ext.sha256_hex input.token) TokenPurpose.password_reset ≡ some token
      → SignedOut token.user_id reset.1.db.sessions
        × NoneOutstanding token.user_id TokenPurpose.password_reset reset.1.db.security_tokens
  unfolding reset_password
  reset_password-SignedOut token h found =
      grind (
        arith,
        spend_reset-SignedOut ext,
        spend_reset-NoneOutstanding ext,
        charge_address_frame ext,
      )
