-- ===== src/Tests/Guesses.antt =====
-- An example of guesses of a password: the limit of two has one left, and of three guesses one is
-- refused for its credentials.
use video_site.Common.{
  ◌≤◌, ◌+◌, ◌≡◌, refl, Option, none, false, List, [], ◌∷◌, All, any, count_where, arith, strip, str,
}
use video_site.Database.Users
use video_site.Database.AuditLog
use video_site.Database.{fits}
use video_site.RateLimit
use video_site.Service.{DeviceInfo, Login, World}
use video_site.Service.Steps.{audit, normalized, limiter_hit, limiter_peek, limiter_reset}
use video_site.Auth.Login.{
  login, guard_ip, guard_account, check_credentials, reject, count_failure, count_ip_failure,
  count_account_failure, admitted, failure_reason,
}
use video_site.Theorems.Guesses.{answers, after, is_accepted, guesses_limited}
use video_site.Theorems.Guesses.Counting.{is_wrong, failures, Open}
use video_site.Tests.{sample, world}

abbrev guess : Login
guess = record { email = "ann@x"; password = "wrong" }

abbrev guesses : List (Login × Option DeviceInfo)
guesses = (guess, none) ∷ (guess, none) ∷ (guess, none) ∷ []

abbrev begun : World
begun = record world {
  counters = ("login:user:ann@x", record { count = 1; expires_at = 900_000_000_000 }) ∷ [];
}

guessed :
    All (λ a. normalized sample a.0.email ≡ "ann@x") guesses
    × (any is_accepted (answers sample guesses begun) ≡ false)
    × Open sample "ann@x" (failures sample "ann@x" begun) (after sample guesses begun).calls
    × ((failures sample "ann@x" begun).count ≤ 2)
unfolding answers after login guard_ip guard_account check_credentials reject count_failure
    count_ip_failure count_account_failure admitted failure_reason audit AuditLog.add fits
    limiter_hit limiter_peek limiter_reset RateLimit.hit RateLimit.peek RateLimit.decide
    RateLimit.charged RateLimit.counter_of RateLimit.set_counter Users.get_by_email
    Users.user_to_entity Users.roles_of strip str
guessed = ((refl, (refl, (refl, tt))), refl, λ n le. omega (arith, le), omega arith)

guesses_limited_example :
    (failures sample "ann@x" begun).count + count_where is_wrong (answers sample guesses begun) ≤ 2
guesses_limited_example =
    guesses_limited sample "ann@x" guesses begun guessed.0 refl guessed.1 guessed.2 guessed.3
