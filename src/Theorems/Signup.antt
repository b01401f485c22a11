-- ===== src/Theorems/Signup.antt =====
-- Who signs up can sign in.
use video_site.Common.{
  ℕ, suc, ◌≤◌, String, ◌≡◌, refl, true, false, Option, none, some, List, [], ◌∷◌, ◌++◌, ◌==◌,
  nat_eq, text_eq, strip, arith, find, any, inl, inr,
}
use video_site.Theorems.Widths.{FitsSession}
use video_site.RateLimit.{RateLimitPolicy}
use video_site.Errors.{Error, ok, Result-cases, rate_limited}
use video_site.Entities.User.{User}
use video_site.Database.{UserRow}
use video_site.Database.Users
use video_site.Database.Users.Laws.{found_id}
use video_site.Database.Sessions
use video_site.Database.Tokens
use video_site.Database.AuditLog
use video_site.Service.{External, DeviceInfo, device_or_empty, RegisterUser, AuthResult, World}
use video_site.Service.TokenService.{generate, issue_access, issue_refresh}
use video_site.Service.Steps.{audit, normalized, limiter_peek, limiter_reset, limiter_hit}
use video_site.Auth.Verification.{issue_verification, send_verification}
use video_site.Auth.Register.{
  register, create_account, add_user, grant_default, charge_address, new_user,
}
use video_site.Auth.Login.{
  login, guard_ip, guard_account, open_session, check_credentials, admitted,
}

find-last :
    (email : String) (rows : List UserRow) (row : UserRow)
    → find (λ r. r.email == email) rows ≡ none
    → row.email ≡ email
    → find (λ r. r.email == email) (rows ++ row ∷ []) ≡ some row
find-last email [] row missing same = grind (arith, text_eq.beq_iff row.email email)
find-last email (r ∷ rest) row missing same = grind (arith, find-last email rest row)

module _ (ext : External) where
  -- The row of the account that a signup made.
  abbrev Made : RegisterUser → World → User → UserRow → World → Type 0
  Made input w user row w' =
      (w'.db.users ≡ w.work.users ++ row ∷ [])
      × (row.id ≡ user.id)
      × (row.email ≡ normalized ext input.email)
      × (row.is_active ≡ true)
      × (n : ℕ) × (row.password_hash ≡ ext.hash_password n input.password)

  create_account_row :
      (input : RegisterUser) (username : String) (device : DeviceInfo) (w : World) (user : User)
      (secret : String)
      → (create_account ext input (normalized ext input.email) username device w).0
        ≡ ok (user, secret)
      → (find (λ r. r.email == normalized ext input.email) w.work.users ≡ none)
        × (row : UserRow) × Made input w user row
            (create_account ext input (normalized ext input.email) username device w).1
  unfolding create_account add_user grant_default issue_verification generate audit AuditLog.add
      Tokens.add Tokens.invalidate_for_user Users.assign_role Users.add Users.get_by_email
      Users.user_to_entity
  create_account_row input username device w user secret done =
      let email = normalized ext input.email in
      (
        grind arith,
        Users.new_row w.work
            (new_user input email username (ext.hash_password w.calls input.password))
            (ext.server_now (suc w.calls)),
        (grind arith, grind (arith, found_id), refl, refl, w.calls, refl),
      )

  -- A session opens, if its jti is new.
  open_session_ok :
      (user : User) (device : DeviceInfo) (w : World)
      → any (λ s. s.jti == ext.uuid4_hex w.calls) w.work.sessions ≡ false
      → FitsSession device
      → (result : AuthResult) × ((open_session ext user device w).0 ≡ ok result)
        × (result.user ≡ user)
  unfolding open_session audit AuditLog.add Sessions.add Sessions.fits_columns issue_access
      issue_refresh
  open_session_ok user device w fresh fit = elim (Result-cases (open_session ext user device w).0) [
    | inl (result, e) ↦ (result, e, grind arith)
    | inr (error, e) ↦ absurd (grind arith)
  ]

  check_credentials_ok :
      (email password : String) (device : DeviceInfo) (w : World) (user : User)
      → admitted ext (Users.get_by_email w.work email) password ≡ some user
      → any (λ s. s.jti == ext.uuid4_hex w.calls) w.work.sessions ≡ false
      → FitsSession device
      → (result : AuthResult) × ((check_credentials ext email password device w).0 ≡ ok result)
        × (result.user ≡ user)
  unfolding check_credentials
  check_credentials_ok email password device w user admits fresh fit =
      let (result, opens, is) = open_session_ok user device w fresh fit in (result, grind arith, is)

  guard_ip_quiet :
      (ip : Option String) (w : World)
      → ((guard_ip ext ip w).1.db ≡ w.db) × (w.calls ≤ (guard_ip ext ip w).1.calls)
  unfolding guard_ip limiter_peek
  guard_ip_quiet ip w = (grind arith, grind arith)

  guard_account_quiet :
      (email : String) (w : World)
      → ((guard_account ext email w).1.db ≡ w.db) × (w.calls ≤ (guard_account ext email w).1.calls)
  unfolding guard_account limiter_peek
  guard_account_quiet email w = (grind arith, grind arith)

  pub charge_address_quiet :
      (policy : RateLimitPolicy) (prefix : String) (refusal : ℕ → Error) (ip : Option String)
      (w : World)
      → (charge_address ext policy prefix refusal ip w).1.db ≡ w.db
  unfolding charge_address limiter_hit
  charge_address_quiet policy prefix refusal ip w = grind arith

  -- What a signup that succeeded did is what its transaction did.
  register_row :
      (input : RegisterUser) (device : Option DeviceInfo) (w : World) (user : User)
      → (register ext input device w).0 ≡ ok user
      → (find (λ r. r.email == normalized ext input.email) w.db.users ≡ none)
        × (row : UserRow) × ((register ext input device w).1.db.users ≡ w.db.users ++ row ∷ [])
        × (row.id ≡ user.id)
        × (row.email ≡ normalized ext input.email)
        × (row.is_active ≡ true)
        × (n : ℕ) × (row.password_hash ≡ ext.hash_password n input.password)
  unfolding register send_verification
  register_row input device w user done =
      let device = device_or_empty device in
      let charged : World =
        (charge_address ext ext.settings.register_ip_policy "register:ip:"
          (λ n. rate_limited n "Too many accounts created from this address") device.ip_address
          w).1 in
      let begun : World = record charged { work = charged.db } in
      elim (Result-cases
        (create_account ext input (normalized ext input.email) (strip input.username) device
          begun).0) [
            | inl ((user', secret), e) ↦
                let (missing, row, (users, same_id, email, active, n, hashed)) =
                  create_account_row input (strip input.username) device begun user' secret e in
                let same =
                  charge_address_quiet ext.settings.register_ip_policy "register:ip:"
                    (λ n. rate_limited n "Too many accounts created from this address")
                    device.ip_address w in
                (
                  grind (arith, missing, same),
                  row,
                  grind (arith, users, same),
                  grind (arith, same_id),
                  email,
                  active,
                  n,
                  hashed,
                )
            | inr (error, e) ↦ absurd (grind arith)
          ]

  -- Who signs up can sign in: after a signup that succeeded, a login with the same email and
  -- password succeeds and is for the same account, where the hasher accepts a password against its
  -- own hash, the two guards of the login let it pass, and no session has a jti that is still to be
  -- drawn, and the device of the login fits the columns of a session.
  pub register-login :
      (input : RegisterUser) (device device' : Option DeviceInfo) (w : World) (user : User)
      → ((n : ℕ) → ext.verify_password input.password (ext.hash_password n input.password) ≡ true)
      → (register ext input device w).0 ≡ ok user
      → let w' : World = (register ext input device w).1 in
        (guard_ip ext (device_or_empty device').ip_address w').0 ≡ ok tt
        → (guard_account ext
            (normalized ext input.email)
            (guard_ip ext (device_or_empty device').ip_address w').1).0
          ≡ ok tt
        → ((n : ℕ) → w'.calls ≤ n → any (λ s. s.jti == ext.uuid4_hex n) w'.db.sessions ≡ false)
        → FitsSession (device_or_empty device')
        → (result : AuthResult) × ((login ext
              (record { email = input.email; password = input.password })
              device'
              w').0
            ≡ ok result)
          × (result.user.id ≡ user.id)
  unfolding login limiter_reset admitted Users.get_by_email Users.user_to_entity
  register-login input device device' w user verifies done ip_free account_free fresh fit =
      let email = normalized ext input.email in
      let ip = (device_or_empty device').ip_address in
      let w' : World = (register ext input device w).1 in
      let (missing, row, users, same_id, mail, active, n, hashed) =
        register_row input device w user done in
      let (ip_db, ip_calls) = guard_ip_quiet ip w' in
      let passed : World = (guard_ip ext ip w').1 in
      let (account_db, account_calls) = guard_account_quiet email passed in
      let reached : World = (guard_account ext email passed).1 in
      let found = find-last email w.db.users row missing mail in
      let admits : admitted ext (Users.get_by_email reached.db email) input.password
          ≡ some (Users.user_to_entity reached.db row) =
        grind (arith, found, verifies n) in
      let begun : World = record reached { work = reached.db } in
      let (result, checks, is) =
        check_credentials_ok email input.password (device_or_empty device') begun
          (Users.user_to_entity reached.db row) admits
          (grind (arith, fresh reached.calls (omega arith))) fit in
      (result, grind (arith, checks), grind arith)
