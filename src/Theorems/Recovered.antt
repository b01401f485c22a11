-- ===== src/Theorems/Recovered.antt =====
-- The link that forgot_password mails works.
use video_site.Common.{
  ℕ, suc, ◌+◌, ◌*◌, ◌<◌, String, ◌≡◌, refl, Bool, true, false, Option, some, List, [], ◌∷◌, ◌++◌,
  ◌==◌, ◌&&◌, nat_eq, text_eq, arith, find, any, inl, inr,
}
use video_site.Errors.{ok, too_many_requests, Result-cases}
use video_site.Entities.User.{User}
use video_site.Entities.Datetime.{utc, add_minutes}
use video_site.Entities.SecurityToken.{SecurityToken, TokenPurpose, purpose_eq, is_usable}
use video_site.Database.{Db, UserRow}
use video_site.Database.Users
use video_site.Database.Users.Laws.{find-rewrite, get_by_id_row}
use video_site.Database.Sessions
use video_site.Database.Tokens
use video_site.Database.AuditLog
use video_site.Service.{External, DeviceInfo, device_or_empty, ResetPassword, World}
use video_site.Service.TokenService.{generate}
use video_site.Service.Steps.{audit}
use video_site.Auth.Verification.{fresh_token, usable_only}
use video_site.Auth.Register.{charge_address}
use video_site.Auth.Refresh.{active_only}
use video_site.Auth.ChangePassword.{set_password, spend_reset_links}
use video_site.Theorems.Widths.{FitsAudit}
use video_site.Theorems.Signup.{charge_address_quiet}
use video_site.Auth.Recovery.{reset_password, prepare_reset, issue_reset, spend_reset}

first_last :
    (p : SecurityToken → Bool) (tokens : List SecurityToken) (t : SecurityToken)
    → any p tokens ≡ false
    → p t ≡ true
    → find p (tokens ++ t ∷ []) ≡ some t
first_last p [] t missing here = grind arith
first_last p (q ∷ rest) t missing here = grind (arith, first_last p rest t)

-- A token that was added is found by its hash.
add_found :
    (db db' : Db) (t : SecurityToken)
    → Tokens.add db t ≡ ok db'
    → Tokens.get_by_hash db' t.token_hash t.purpose ≡ some (record t { id = db.next_id })
unfolding Tokens.add Tokens.get_by_hash
add_found db db' t added = grind (
  arith,
  first_last (λ q. q.token_hash == t.token_hash && q.purpose == t.purpose) db.security_tokens
      (record t { id = db.next_id }),
  text_eq.beq_iff t.token_hash t.token_hash,
  purpose_eq.beq_iff t.purpose t.purpose,
)

module _ (ext : External) where
  -- The link that the transaction stores.
  abbrev link : User → World → SecurityToken
  link user w =
      fresh_token user.id TokenPurpose.password_reset
        (ext.sha256_hex (ext.token_urlsafe (suc w.calls))) (utc (ext.utc_now (suc (suc w.calls))))
        (add_minutes (utc (ext.utc_now (suc (suc w.calls)))) ext.settings.reset_ttl_minutes)

  issue_reset-link :
      (user : User) (w : World) (secret : String)
      → (issue_reset ext user w).0 ≡ ok (some secret)
      → (Tokens.get_by_hash
            (issue_reset ext user w).1.db
            (ext.sha256_hex secret)
            TokenPurpose.password_reset
          ≡ some (record (link user w) { id = w.work.next_id }))
        × ((issue_reset ext user w).1.db.users ≡ w.work.users)
  unfolding issue_reset spend_reset_links generate Tokens.add Tokens.invalidate_for_user
  issue_reset-link user w secret done =
      let spent_db =
        Tokens.invalidate_for_user w.work user.id TokenPurpose.password_reset
          (utc (ext.utc_now w.calls)) in
      elim (Result-cases (Tokens.add spent_db (link user w))) [
        | inl (db, e) ↦ (grind (arith, add_found spent_db db (link user w) e), grind arith)
        | inr (error, e) ↦ absurd (grind arith)
      ]

  -- A stored link that is usable resets the password.
  spend_reset_ok :
      (token_hash password : String) (device : Option DeviceInfo) (w : World) (t : SecurityToken)
      (row : UserRow)
      → Tokens.get_by_hash w.work token_hash TokenPurpose.password_reset ≡ some t
      → is_usable t (utc (ext.utc_now w.calls)) ≡ true
      → Users.find_by_id w.work t.user_id ≡ some row
      → row.id ≡ t.user_id
      → row.is_active ≡ true
      → FitsAudit (device_or_empty device)
      → (user : User) × ((spend_reset ext token_hash password device w).0 ≡ ok user)
        × (n : ℕ) × (row' : UserRow) × (Users.find_by_id
              (spend_reset ext token_hash password device w).1.db
              t.user_id
            ≡ some row')
        × (row'.password_hash ≡ ext.hash_password n password)
  unfolding spend_reset set_password spend_reset_links audit AuditLog.add Tokens.mark_used
      Tokens.invalidate_for_user Sessions.revoke_all_for_user Users.update_password Users.get_by_id
      Users.find_by_id Users.user_to_entity usable_only active_only
  spend_reset_ok token_hash password device w t row found usable there same active fit =
      elim (Result-cases (spend_reset ext token_hash password device w).0) [
        | inl (user, e) ↦ (
          user,
          e,
          suc (suc w.calls),
          record row {
            password_hash = ext.hash_password (suc (suc w.calls)) password;
            updated_at = ext.on_update (suc (suc (suc w.calls))) row.updated_at;
          },
          grind (
            arith,
            find-rewrite row.id t.user_id
                (Users.rehashed_row
                  (record (Users.user_to_entity w.work row) {
                    password_hash = ext.hash_password (suc (suc w.calls)) password;
                  })
                  (ext.on_update (suc (suc (suc w.calls)))))
                w.work.users (λ r. refl),
          ),
          refl,
        )
        | inr (error, e) ↦ absurd (grind arith)
      ]

  -- The link that forgot_password mails works: with the secret that its transaction issued to an
  -- active account, and an agreeing pair of passwords, a reset that is made within the minutes of
  -- the settings, on what the transaction committed, succeeds and stores a hash of the new password
  -- for the account, where its row is the one of its email and of its id, and the limit of the
  -- address lets the reset pass. The address and the user agent of the device must fit the columns
  -- of the audit log.
  pub prepare_reset-reset_password :
      (address secret : String) (input : ResetPassword) (device : Option DeviceInfo) (w v : World)
      (user : User)
      → Users.get_by_email w.work address ≡ some user
      → Users.get_by_id w.work user.id ≡ some user
      → (prepare_reset ext address w).0 ≡ ok (some secret)
      → v.db ≡ (prepare_reset ext address w).1.db
      → input.token ≡ secret
      → input.password ≡ input.password_repeat
      → FitsAudit (device_or_empty device)
      → let guarded =
          charge_address ext ext.settings.reset_password_ip_policy "reset-password:ip:"
            too_many_requests
            (device_or_empty device).ip_address
            v in
        guarded.0 ≡ ok tt
        → ext.utc_now guarded.1.calls
          < ext.utc_now (suc (suc w.calls)) + ext.settings.reset_ttl_minutes * 60 * 1_000_000
        → ((reset_password ext input device v).0 ≡ ok tt)
          × (n : ℕ) × (row' : UserRow) × (Users.find_by_id
                (reset_password ext input device v).1.db
                user.id
              ≡ some row')
          × (row'.password_hash ≡ ext.hash_password n input.password)
  unfolding prepare_reset reset_password active_only is_usable Users.find_by_id Users.user_to_entity
  prepare_reset-reset_password address secret input device w v user mail by_id prepared kept
        is_secret agree fit free in_time =
      let (row, there, entity, same) = get_by_id_row w.work user.id user by_id in
      let issued : (issue_reset ext user w).0 ≡ ok (some secret) = grind arith in
      let (stored, users) = issue_reset-link user w secret issued in
      let guarded : World =
        (charge_address ext ext.settings.reset_password_ip_policy "reset-password:ip:"
          too_many_requests (device_or_empty device).ip_address v).1 in
      let begun : World = record guarded { work = guarded.db } in
      let kept' : guarded.db ≡ (issue_reset ext user w).1.db = grind (
        arith,
        charge_address_quiet ext ext.settings.reset_password_ip_policy "reset-password:ip:"
            too_many_requests (device_or_empty device).ip_address v,
      ) in
      let (who, e, n, row', found, hash) =
        spend_reset_ok (ext.sha256_hex input.token) input.password (some (device_or_empty device))
          begun (record (link user w) { id = w.work.next_id }) row (grind (arith, stored, kept'))
          (grind arith) (grind (arith, users, kept', there)) same (grind (arith, entity)) fit in
      (
        grind (arith, e, text_eq.beq_iff input.password input.password_repeat),
        n,
        row',
        grind (arith, found, text_eq.beq_iff input.password input.password_repeat),
        hash,
      )
