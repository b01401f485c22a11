-- ===== src/Tests/Limits.antt =====
-- Examples of the rate limiter.
use Prim.Native.Nat.{min}
use video_site.Common.{
  ℕ, suc, ◌+◌, ◌*◌, ◌≡◌, ◌≤◌, refl, String, true, false, List, [], ◌∷◌, arith, text_eq,
}
use video_site.RateLimit.{Counters, hit, peek, decide, counter_of, charged, second}
use video_site.RateLimit.Laws.{peek-hit, retry_after_suffices}
use video_site.RateLimit.Window.{allowed_hits, attempts, window_budget}

-- Two hits on a key, of which the limit is two.
abbrev full : Counters
full = ("login:ip:a", record { count = 2; expires_at = 900_000_000_000 }) ∷ []

peek-hit_example : (peek full 5 "login:ip:a" 2).allowed ≡ (hit full 5 "login:ip:a" 2 900).0.allowed
peek-hit_example = peek-hit full 5 "login:ip:a" 2 900

refused : (hit full 5 "login:ip:a" 2 900).0.allowed ≡ false
unfolding hit charged decide counter_of
refused = refl

waited : 5 + ((hit full 5 "login:ip:a" 2 900).0.retry_after_seconds + 1) * second ≤ 900_000_000_005
unfolding hit charged decide counter_of
waited = ground arith

retry_after_suffices_example :
    (peek (hit full 5 "login:ip:a" 2 900).1 900_000_000_005 "login:ip:a" 2).allowed ≡ true
retry_after_suffices_example =
    retry_after_suffices full 5 "login:ip:a" 2 900 refused 900_000_000_005 (ground arith) waited

abbrev run : List (ℕ × String)
run = (6, "login:ip:a") ∷ (7, "login:ip:b") ∷ (8, "login:ip:a") ∷ []

over : (counter_of [] "login:ip:a").expires_at ≤ 5
unfolding counter_of
over = ground arith

window_budget_example :
    allowed_hits 2 900 [] "login:ip:a" ((5, "login:ip:a") ∷ run)
    ≡ min (suc (attempts 2 900 "login:ip:a" run)) 2
window_budget_example =
    window_budget 2 900 [] "login:ip:a" 5 run over
      (ground arith, (ground arith, (ground arith, tt)))
