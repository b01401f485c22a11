-- ===== src/Theorems/Guesses/Logins.antt =====
-- What a login does to the counter of the account.
use video_site.Common.{
  ℕ, ◌≤◌, ◌<◌, String, true, false, Option, ◌≡◌, ◌⊎◌, inl, inr, nat_eq, text_eq, arith,
  Option-cases,
}
use video_site.Errors.{Error, err, Result-cases}
use video_site.Entities.User.{User}
use video_site.Database.Users
use video_site.Database.Sessions
use video_site.Database.AuditLog
use video_site.RateLimit.{is_enforced}
use video_site.Service.{External, DeviceInfo, device_or_empty, Login, World}
use video_site.Service.TokenService.{issue_access, issue_refresh}
use video_site.Service.Steps.{audit, normalized, limiter_hit, limiter_peek, limiter_reset}
use video_site.Auth.Login.{
  login, guard_ip, guard_account, count_failure, count_ip_failure, count_account_failure, reject,
  open_session, check_credentials, admitted,
}
use video_site.Theorems.Guesses.Counting.{
  is_wrong, limit, failures, Open, counted, guard_ip_still, guard_account_still,
  guard_account_passed, count_failure-counted,
}

module _ (ext : External) (email : String) where
  reject_counters :
      (user : Option User) (device : DeviceInfo) (w : World)
      → ((reject ext user email device w).1.counters
          ≡ (count_failure ext email device w).1.counters)
        × ((count_failure ext email device w).1.calls ≤ (reject ext user email device w).1.calls)
  unfolding reject audit
  reject_counters user device w = (grind arith, grind arith)

  open_session_still :
      (user : User) (device : DeviceInfo) (w : World)
      → ((open_session ext user device w).1.counters ≡ w.counters)
        × (w.calls ≤ (open_session ext user device w).1.calls)
        × (is_wrong (open_session ext user device w).0 ≡ false)
  unfolding open_session audit issue_access issue_refresh Sessions.add AuditLog.add
  open_session_still user device w = (grind arith, grind arith, grind arith)

  -- What a check that fails does to the counter: it counts, or, where the session could not be
  -- stored, leaves it.
  check_counted :
      (password : String) (device : DeviceInfo) (w : World) (last : ℕ) (e : Error)
      → is_enforced ext.settings.login_account_policy ≡ true
      → Open ext email (failures ext email w) last
      → (check_credentials ext email password device w).1.calls ≤ last
      → (check_credentials ext email password device w).0 ≡ err e
      → ((failures ext email (check_credentials ext email password device w).1
            ≡ counted ext email (failures ext email w))
          ⊎ ((failures ext email (check_credentials ext email password device w).1
                ≡ failures ext email w)
              × (is_wrong (err e) ≡ false)))
        × (w.calls ≤ (check_credentials ext email password device w).1.calls)
  unfolding check_credentials
  check_counted password device w last e on live bound failed =
      elim (Option-cases (admitted ext (Users.get_by_email w.work email) password)) [
        | inl refused ↦
            let account = Users.get_by_email w.work email in
            let (same, calls) = reject_counters account device w in
            let (charged, later) =
              count_failure-counted ext email device w last on live (grind (arith, calls, bound)) in
            (inl (grind (arith, same, charged)), grind (arith, calls, later))
        | inr (user, is) ↦
            let (kept, later, right) = open_session_still user device w in
            (inr (grind (arith, kept), grind (arith, right)), grind (arith, later))
      ]

  count_failure_calls :
      (device : DeviceInfo) (w : World) → w.calls ≤ (count_failure ext email device w).1.calls
  unfolding count_failure count_ip_failure count_account_failure limiter_hit
  count_failure_calls device w = grind arith

  check_calls :
      (password : String) (device : DeviceInfo) (w : World)
      → w.calls ≤ (check_credentials ext email password device w).1.calls
  unfolding check_credentials
  check_calls password device w =
      elim (Option-cases (admitted ext (Users.get_by_email w.work email) password)) [
        | inl refused ↦ grind (
          arith,
          reject_counters (Users.get_by_email w.work email) device w,
          count_failure_calls device w,
        )
        | inr (user, is) ↦ grind (arith, open_session_still user device w)
      ]

  guard_ip_wrong :
      (ip : Option String) (w : World) (e : Error)
      → (guard_ip ext ip w).0 ≡ err e
      → is_wrong (err e) ≡ false
  unfolding guard_ip limiter_peek
  guard_ip_wrong ip w e barred = grind arith

  guard_account_wrong :
      (w : World) (e : Error) → (guard_account ext email w).0 ≡ err e → is_wrong (err e) ≡ false
  unfolding guard_account limiter_peek
  guard_account_wrong w e barred = grind arith

  pub login-counted :
      (credentials : Login) (device : Option DeviceInfo) (w : World) (last : ℕ) (e : Error)
      → normalized ext credentials.email ≡ email
      → is_enforced ext.settings.login_account_policy ≡ true
      → Open ext email (failures ext email w) last
      → (login ext credentials device w).1.calls ≤ last
      → (login ext credentials device w).0 ≡ err e
      → ((failures ext email (login ext credentials device w).1
            ≡ counted ext email (failures ext email w))
          × ((failures ext email w).count < limit ext email))
        ⊎ ((failures ext email (login ext credentials device w).1 ≡ failures ext email w)
            × (is_wrong (err e) ≡ false))
  unfolding login limiter_reset
  login-counted credentials device w last e same on live bound failed =
      let ip = (device_or_empty device).ip_address in
      let guarded : World = (guard_ip ext ip w).1 in
      let reached : World = (guard_account ext email guarded).1 in
      let begun : World = record reached { work = reached.db } in
      let (still, later) = guard_ip_still ext email ip w in
      let (still', later') = guard_account_still ext email guarded in
      elim (Result-cases (guard_ip ext ip w).0) [
        | inr (error, barred) ↦
            inr (grind (arith, still), grind (arith, guard_ip_wrong ip w error barred))
        | inl (_, free) ↦ elim (Result-cases (guard_account ext email guarded).0) [
          | inr (error, barred) ↦ inr (
            grind (arith, still, still', same),
            grind (arith, guard_account_wrong guarded error barred, same),
          )
          | inl (_, passed) ↦
              let r =
                check_credentials ext email credentials.password (device_or_empty device) begun in
              elim (Result-cases r.0) [
                | inl (result, accepted) ↦ absurd (grind (arith, same))
                | inr (error, refused) ↦
                    let bound' : r.1.calls ≤ last = grind (arith, same, bound) in
                    let more = check_calls credentials.password (device_or_empty device) begun in
                    let soon : guarded.calls ≤ last = grind (arith, more, bound', later') in
                    let below =
                      guard_account_passed ext email guarded on
                        (grind (arith, live guarded.calls soon, still)) passed in
                    let (step, _) =
                      check_counted credentials.password (device_or_empty device) begun last error
                        on (λ n le. grind (arith, live n le, still, still')) bound' refused in
                    elim step [
                      | inl charged ↦
                          inl (
                            grind (arith, charged, same, still, still'),
                            grind (arith, below, still),
                          )
                      | inr (kept, right) ↦
                          inr (grind (arith, kept, same, still, still'), grind (arith, right, same))
                    ]
              ]
        ]
      ]

  pub login_calls :
      (credentials : Login) (device : Option DeviceInfo) (w : World)
      → normalized ext credentials.email ≡ email
      → w.calls ≤ (login ext credentials device w).1.calls
  unfolding login limiter_reset
  login_calls credentials device w same =
      let ip = (device_or_empty device).ip_address in
      let guarded : World = (guard_ip ext ip w).1 in
      let reached : World = (guard_account ext email guarded).1 in
      let begun : World = record reached { work = reached.db } in
      let (still, later) = guard_ip_still ext email ip w in
      let (still', later') = guard_account_still ext email guarded in
      grind (arith, same, check_calls credentials.password (device_or_empty device) begun)
