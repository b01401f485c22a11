-- ===== src/Theorems/Admission.antt =====
-- Who gets in: what a token that is accepted shows, and what a login does on every branch.
use video_site.Common.{
  ℕ, suc, String, ◌≡◌, refl, ◌⊎◌, true, ◌&&◌, if◌then◌else◌, Option, none, some, nat_eq, text_eq,
  arith, Option-cases, inl, inr,
}
use video_site.Errors.{Error, Result, ok, err, bad_login, too_long, integrity}
use video_site.Entities.User.{User}
use video_site.Entities.Datetime.{utc}
use video_site.Entities.Session.{AuthSession, is_valid}
use video_site.Database.{Db, fits}
use video_site.Database.Users
use video_site.Database.Sessions
use video_site.Database.Sessions.{get_by_jti}
use video_site.Database.AuditLog
use video_site.RateLimit
use video_site.RateLimit.{is_enforced, RateLimitPolicy}
use video_site.RateLimit.Laws.{counter_of-pop}
use video_site.Database.Tokens
use video_site.Auth.ChangePassword.{spend_reset_links}
use video_site.Auth.Register.{charge_address}
use video_site.Auth.Recovery.{forgot_password, prepare_reset, issue_reset, charge_email, send_reset}
use video_site.Service.{External, DeviceInfo, device_or_empty, Login, AuthResult, World, cached}
use video_site.Service.TokenService.{TokenPayload, decode, generate}
use video_site.Service.Steps.{
  audit, user_cache_key, normalized, limiter_hit, limiter_peek, limiter_reset,
}
use video_site.Auth.Login.{
  login, guard_ip, guard_account, count_failure, count_ip_failure, count_account_failure, reject,
  check_credentials, admitted, account_key,
}
use video_site.Theorems.Kept.Auth.{guard_ip_frame, guard_account_frame}
use video_site.Auth.Refresh.{valid_only, active_only}
use video_site.Auth.Authenticate.{authenticate, resolve, load_user}

module _ (ext : External) (token : String) (w : World) (user : User) where
  abbrev pub Shown : TokenPayload → AuthSession → Type 0
  Shown payload s =
      ((decode ext token w).0 ≡ ok payload)
      × (payload.token_type ≡ "access")
      × (get_by_jti w.db payload.jti ≡ some s)
      × (is_valid s (utc (ext.utc_now (suc w.calls))) ≡ true)
      × (user.is_active ≡ true)
      × ((cached w.cache (user_cache_key payload.user_id) ≡ some user)
          ⊎ (Users.get_by_id w.db payload.user_id ≡ some user))

  decode_cases :
      (r : Result TokenPayload) → ((p : TokenPayload) × (r ≡ ok p)) ⊎ ((e : Error) × (r ≡ err e))
  decode_cases (ok p) = inl (p, refl)
  decode_cases (err e) = inr (e, refl)

  -- A token that `authenticate` accepts is an access token that decodes, its session is in the table
  -- and valid at the moment of the check, and the account handed back is active and is the payload's,
  -- as the cache holds it or as the table has it.
  pub authenticate_sound :
      (authenticate ext token w).0 ≡ ok user
      → (payload : TokenPayload) × (s : AuthSession) × Shown payload s
  unfolding authenticate resolve load_user valid_only active_only decode
  authenticate_sound h = elim (decode_cases (decode ext token w).0) [
    | inr (e, bad) ↦ absurd (grind arith)
    | inl (payload, good) ↦ elim (Option-cases (get_by_jti w.db payload.jti)) [
      | inl missing ↦ absurd (grind arith)
      | inr (s, found) ↦ (
        payload,
        s,
        (
          good,
          grind (arith, text_eq.beq_iff),
          found,
          grind arith,
          grind arith,
          grind (arith, text_eq.beq_iff),
        ),
      )
    ]
  ]

module _ (ext : External) (email password : String) (device : DeviceInfo) (w : World) where
  abbrev pub checked : Result AuthResult × World
  checked = check_credentials ext email password device w

counter_of-reset :
    (counters : RateLimit.Counters) (key : String)
    → RateLimit.counter_of (RateLimit.reset counters key) key ≡ record { count = 0; expires_at = 0 }
unfolding RateLimit.reset
counter_of-reset counters key =
    ground (arith, counter_of-pop counters key key, text_eq.beq_iff key key)

module _ (ext : External) (credentials : Login) (device : Option DeviceInfo) (w : World) where
  abbrev pub account : String
  account = account_key (normalized ext credentials.email)

  -- A login that succeeds takes the account's counter of failures away.
  pub login_clears :
      (result : AuthResult)
      → (login ext credentials device w).0 ≡ ok result
      → RateLimit.counter_of (login ext credentials device w).1.counters account
        ≡ record { count = 0; expires_at = 0 }
  unfolding login limiter_reset
  login_clears result h = grind (arith, counter_of-reset)

prepare_reset_refusal :
    (ext : External) (address : String) (w : World) (e : Error)
    → (prepare_reset ext address w).0 ≡ err e
    → e ≡ integrity
unfolding prepare_reset issue_reset spend_reset_links generate Tokens.add active_only
prepare_reset_refusal ext address w e h = grind arith

charge_email_db :
    (ext : External) (address : String) (w : World) (db : Db)
    → charge_email ext address (record w { db = db })
      ≡ ((charge_email ext address w).0, record (charge_email ext address w).1 { db = db })
unfolding charge_email limiter_hit
charge_email_db ext address w db = grind arith

charge_address_db :
    (ext : External) (policy : RateLimitPolicy) (prefix : String) (refusal : ℕ → Error)
    (ip : Option String) (w : World) (db : Db)
    → charge_address ext policy prefix refusal ip (record w { db = db }) ≡ (
      (charge_address ext policy prefix refusal ip w).0,
      record (charge_address ext policy prefix refusal ip w).1 { db = db },
    )
unfolding charge_address limiter_hit
charge_address_db ext policy prefix refusal ip w db = grind arith

-- Whether an address has an account does not show in how `forgot_password` ends: on any two
-- databases, with all else the same, it ends the same way, but for a hash that the table of tokens
-- already holds.
pub forgot_password_same :
    (ext : External) (email : String) (device : Option DeviceInfo) (w : World) (db : Db)
    → ((forgot_password ext email device w).0
        ≡ (forgot_password ext email device (record w { db = db })).0)
      ⊎ ((forgot_password ext email device w).0 ≡ err integrity)
      ⊎ ((forgot_password ext email device (record w { db = db })).0 ≡ err integrity)
unfolding forgot_password send_reset
forgot_password_same ext email device w db =
    grind (arith, prepare_reset_refusal, charge_email_db, charge_address_db)

guard_ip_db :
    (ext : External) (ip : Option String) (w : World) (db : Db)
    → guard_ip ext ip (record w { db = db })
      ≡ ((guard_ip ext ip w).0, record (guard_ip ext ip w).1 { db = db })
unfolding guard_ip limiter_peek
guard_ip_db ext ip w db = grind arith

guard_account_db :
    (ext : External) (email : String) (w : World) (db : Db)
    → guard_account ext email (record w { db = db })
      ≡ ((guard_account ext email w).0, record (guard_account ext email w).1 { db = db })
unfolding guard_account limiter_peek
guard_account_db ext email w db = grind arith

count_failure_db :
    (ext : External) (email : String) (device : DeviceInfo) (w : World) (db : Db)
    → count_failure ext email device (record w { db = db; work = db }) ≡ (
      (count_failure ext email device w).0,
      record (count_failure ext email device w).1 { db = db; work = db },
    )
unfolding count_failure count_ip_failure count_account_failure limiter_hit
count_failure_db ext email device w db = grind arith

-- How the branch for credentials that are refused ends.
reject_end :
    (ext : External) (user : Option User) (email : String) (device : DeviceInfo) (w : World)
    → (count_failure ext email device w).0 ≡ ok tt
    → ((reject ext user email device w).0 ≡ (
        if fits 45 device.ip_address && fits 400 device.user_agent
        then err bad_login
        else err too_long))
      × ((reject ext user email device w).1.counters
          ≡ (count_failure ext email device w).1.counters)
unfolding reject audit AuditLog.add
reject_end ext user email device w counted = (grind arith, grind arith)

count_failure_ok :
    (ext : External) (email : String) (device : DeviceInfo) (w : World)
    → (count_failure ext email device w).0 ≡ ok tt
unfolding count_failure count_ip_failure count_account_failure limiter_hit
count_failure_ok ext email device w = grind arith

-- How a check that is refused ends, whatever the database.
check_refused :
    (ext : External) (email password : String) (device : DeviceInfo) (w : World) (db : Db)
    → admitted ext (Users.get_by_email db email) password ≡ none
    → let r = check_credentials ext email password device (record w { db = db; work = db }) in
      (r.0 ≡ (
        if fits 45 device.ip_address && fits 400 device.user_agent
        then err bad_login
        else err too_long))
      × (r.1.counters ≡ (count_failure ext email device w).1.counters)
unfolding check_credentials
check_refused ext email password device w db refused =
    let v : World = record w { db = db; work = db } in
    let (answer, counters) =
      reject_end ext (Users.get_by_email db email) email device v
        (count_failure_ok ext email device v) in
    (grind (arith, answer), grind (arith, counters, count_failure_db ext email device w db))

-- Why credentials are refused does not show: on any two databases, with all else the same, a login
-- whose credentials admit no account on either ends the same way and leaves the same counters,
-- whether the account is missing, inactive, or has another password.
pub login_same :
    (ext : External) (credentials : Login) (device : Option DeviceInfo) (w : World) (db : Db)
    → admitted ext (Users.get_by_email w.db (normalized ext credentials.email)) credentials.password
      ≡ none
    → admitted ext (Users.get_by_email db (normalized ext credentials.email)) credentials.password
      ≡ none
    → ((login ext credentials device w).0 ≡ (login ext credentials device (record w { db = db })).0)
      × ((login ext credentials device w).1.counters
          ≡ (login ext credentials device (record w { db = db })).1.counters)
unfolding login limiter_reset
login_same ext credentials device w db refused refused' =
    let email = normalized ext credentials.email in
    let device = device_or_empty device in
    let guarded : World = (guard_ip ext device.ip_address w).1 in
    let reached : World = (guard_account ext email guarded).1 in
    let (answer, counters) =
      check_refused ext email credentials.password device reached w.db refused in
    let (answer', counters') =
      check_refused ext email credentials.password device reached db refused' in
    (
      grind (
        arith,
        answer,
        answer',
        guard_ip_db ext device.ip_address w db,
        guard_account_db ext email guarded db,
        guard_ip_frame ext device.ip_address w,
        guard_account_frame ext email guarded,
      ),
      grind (
        arith,
        answer,
        answer',
        counters,
        counters',
        guard_ip_db ext device.ip_address w db,
        guard_account_db ext email guarded db,
        guard_ip_frame ext device.ip_address w,
        guard_account_frame ext email guarded,
      ),
    )
