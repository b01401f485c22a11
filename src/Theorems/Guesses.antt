-- ===== src/Theorems/Guesses.antt =====
-- How often a password can be guessed.
pub mod Counting
mod Logins
use Prim.Native.String.{[] as empty, ◌∷◌ as cons, ◌++◌ as join}
use Prim.Native.String.append.{nil as nil_append, cons as cons_append}
use Prim.Native.Char.{code}
use video_site.Common.{
  ℕ, zero, suc, ◌+◌, ◌≤◌, ◌<◌, String, Bool, true, false, Option, none, some, List, [], ◌∷◌, ◌≡◌,
  refl, ◌⊎◌, inl, inr, ap, ◌∙◌, ◌==◌, nat_eq, text_eq, All, any, count_where, arith, Bool-cases,
  Option-cases, fstring, ltb, leb, if◌then◌else◌,
}
use video_site.Errors.{Error, invalid_credentials, Result, ok, err, Result-cases}
use video_site.Entities.User.{User}
use video_site.Database.Users
use video_site.Database.Sessions
use video_site.Database.AuditLog
use video_site.RateLimit
use video_site.RateLimit.{is_enforced, Counter, counter_of}
use video_site.RateLimit.Laws.{counter_of-set_counter}
use video_site.Service.{External, DeviceInfo, device_or_empty, Login, AuthResult, World}
use video_site.Service.TokenService.{issue_access, issue_refresh}
use video_site.Service.Steps.{audit, normalized, limiter_hit, limiter_peek, limiter_reset}
use video_site.Auth.Login.{
  login, guard_ip, guard_account, count_failure, count_ip_failure, count_account_failure, reject,
  open_session, check_credentials, admitted, account_key, ip_key,
}
use video_site.Theorems.Guesses.Counting.{is_wrong, limit, failures, Open, counted}
use video_site.Theorems.Guesses.Logins.{login-counted, login_calls}

-- The answers to some logins, one after the other, and the world after them.
unfoldable pub answers :
    External → List (Login × Option DeviceInfo) → World → List (Result AuthResult)
answers ext [] w = []
answers ext ((credentials, device) ∷ rest) w =
    let (answer, w') = login ext credentials device w in answer ∷ answers ext rest w'

unfoldable pub after : External → List (Login × Option DeviceInfo) → World → World
after ext [] w = w
after ext ((credentials, device) ∷ rest) w = after ext rest (login ext credentials device w).1

abbrev pub is_accepted : Result AuthResult → Bool
is_accepted (ok _) = true
is_accepted (err _) = false

module _ (ext : External) (email : String) where
  after_calls :
      (attempts : List (Login × Option DeviceInfo)) (w : World)
      → All (λ a. normalized ext a.0.email ≡ email) attempts
      → w.calls ≤ (after ext attempts w).calls
  unfolding after
  after_calls [] w own = omega arith
  after_calls ((credentials, device) ∷ rest) w (same, own) = grind (
    arith,
    login_calls ext email credentials device w same,
    after_calls rest (login ext credentials device w).1 own,
  )

  -- Where failures are counted for an account, its window is open at every moment of some logins to
  -- it, none of them succeeds, and its counter is within the limit: no more of them are refused for
  -- their credentials than the limit has left, however many they are, from whatever devices.
  pub guesses_limited :
      (attempts : List (Login × Option DeviceInfo)) (w : World)
      → All (λ a. normalized ext a.0.email ≡ email) attempts
      → is_enforced ext.settings.login_account_policy ≡ true
      → any is_accepted (answers ext attempts w) ≡ false
      → Open ext email (failures ext email w) (after ext attempts w).calls
      → (failures ext email w).count ≤ ext.settings.login_account_policy.limit
      → (failures ext email w).count + count_where is_wrong (answers ext attempts w)
        ≤ ext.settings.login_account_policy.limit
  unfolding after answers
  guesses_limited [] w own on none_in live within = omega (arith, within)
  guesses_limited ((credentials, device) ∷ rest) w (same, own) on none_in live within =
      let w' : World = (login ext credentials device w).1 in
      let later = after_calls rest w' own in
      elim (Result-cases (login ext credentials device w).0) [
        | inl (result, accepted) ↦ absurd (grind arith)
        | inr (error, refused) ↦
            elim (login-counted ext email credentials device w (after ext rest w').calls error same
              on live later refused) [
                | inl (charged, below) ↦
                    let more =
                      guesses_limited rest w' own on (grind arith)
                        (λ n le. grind (arith, live n le, charged))
                        (grind (arith, charged, below)) in
                    grind (arith, more, charged)
                | inr (kept, right) ↦
                    let more =
                      guesses_limited rest w' own on (grind arith)
                        (λ n le. grind (arith, live n le, kept)) (grind (arith, kept, within)) in
                    grind (arith, more, kept, right, refused)
              ]
      ]
