-- ===== src/Theorems/Guesses/Counting.antt =====
-- What the guards and the counting of failures do to the counter of an account.
use Prim.Native.String.{[] as empty, ◌∷◌ as cons, ◌++◌ as join}
use Prim.Native.String.append.{cons as cons_append}
use Prim.Native.Char.{code}
use video_site.Common.{
  ℕ, zero, suc, ◌+◌, ◌≤◌, ◌<◌, String, Bool, true, false, Option, none, some, ◌≡◌, refl, inl, inr,
  ap, ◌∙◌, ◌==◌, nat_eq, text_eq, arith, Bool-cases,
}
use video_site.Errors.{invalid_credentials, Result, ok, err}
use video_site.RateLimit
use video_site.RateLimit.{is_enforced, Counter, counter_of}
use video_site.RateLimit.Laws.{counter_of-set_counter}
use video_site.Service.{External, DeviceInfo, AuthResult, World}
use video_site.Service.Steps.{limiter_hit, limiter_peek}
use video_site.Auth.Login.{
  guard_ip, guard_account, count_failure, count_ip_failure, count_account_failure, account_key,
  ip_key,
}

char_at : ℕ → String → ℕ
char_at n empty = 0
char_at zero (cons c s) = code c
char_at (suc n) (cons c s) = char_at n s

abbrev long : ℕ → String → Bool
long n empty = false
long zero (cons c s) = true
long (suc n) (cons c s) = long n s

char_at-join : (n : ℕ) (s t : String) → long n s ≡ true → char_at n (join s t) ≡ char_at n s
unfolding char_at
char_at-join n empty t is_long = absurd (grind arith)
char_at-join zero (cons c s) t is_long = ap (char_at zero) (λ i. cons_append c s t i)
char_at-join (suc n) (cons c s) t is_long =
    ap (char_at (suc n)) (λ i. cons_append c s t i) ∙ char_at-join n s t is_long

-- The counter of an address is never that of an account.
keys_differ : (ip email : String) → (ip_key ip == account_key email) ≡ false
unfolding char_at
keys_differ ip email = elim (Bool-cases (ip_key ip == account_key email)) [
  | inl same ↦
      let equal : ip_key ip ≡ account_key email =
        grind (arith, text_eq.beq_iff (ip_key ip) (account_key email)) in
      let left = char_at-join 6 "login:ip:" (join ip "") refl in
      let right = char_at-join 6 "login:user:" (join email "") refl in
      let both : char_at 6 (ip_key ip) ≡ char_at 6 (account_key email) = ap (char_at 6) equal in
      absurd (grind (arith, left, right, both))
  | inr other ↦ other
]

-- A login that was refused for its credentials.
abbrev pub is_wrong : Result AuthResult → Bool
is_wrong (err (invalid_credentials _)) = true
is_wrong _ = false

module _ (ext : External) (email : String) where
  abbrev pub limit : ℕ
  limit = ext.settings.login_account_policy.limit

  -- The counter of the account.
  abbrev pub failures : World → Counter
  failures w = counter_of w.counters (account_key email)

  -- The window is open at every moment up to a call of the clock.
  abbrev pub Open : Counter → ℕ → Type 0
  Open c last = (n : ℕ) → n ≤ last → ext.monotonic n < c.expires_at

  abbrev pub counted : Counter → Counter
  counted c = record c { count = c.count + 1 }

  pub guard_ip_still :
      (ip : Option String) (w : World)
      → ((guard_ip ext ip w).1.counters ≡ w.counters) × (w.calls ≤ (guard_ip ext ip w).1.calls)
  unfolding guard_ip limiter_peek
  guard_ip_still ip w = (grind arith, grind arith)

  pub guard_account_still :
      (w : World)
      → ((guard_account ext email w).1.counters ≡ w.counters)
        × (w.calls ≤ (guard_account ext email w).1.calls)
  unfolding guard_account limiter_peek
  guard_account_still w = (grind arith, grind arith)

  pub guard_account_passed :
      (w : World)
      → is_enforced ext.settings.login_account_policy ≡ true
      → ext.monotonic w.calls < (failures w).expires_at
      → (guard_account ext email w).0 ≡ ok tt
      → (failures w).count < limit
  unfolding guard_account limiter_peek RateLimit.peek RateLimit.decide
  guard_account_passed w on live passed = ground arith

  pub count_ip_still :
      (ip : Option String) (w : World)
      → ((count_ip_failure ext ip w).0 ≡ ok tt)
        × (failures (count_ip_failure ext ip w).1 ≡ failures w)
        × (w.calls ≤ (count_ip_failure ext ip w).1.calls)
  unfolding count_ip_failure limiter_hit RateLimit.hit
  count_ip_still none w = (refl, refl, omega arith)
  count_ip_still (some ip) w =
      let other = keys_differ ip email in
      (
        grind arith,
        grind (
          arith,
          other,
          counter_of-set_counter w.counters (ip_key ip) (account_key email) (
              RateLimit.charged (counter_of w.counters (ip_key ip)) (ext.monotonic w.calls)
                ext.settings.login_ip_policy.window_seconds),
        ),
        grind arith,
      )

  pub count_account_counted :
      (w : World)
      → is_enforced ext.settings.login_account_policy ≡ true
      → ext.monotonic w.calls < (failures w).expires_at
      → failures (count_account_failure ext email w).1 ≡ counted (failures w)
  unfolding count_account_failure limiter_hit RateLimit.hit RateLimit.charged
  count_account_counted w on live = grind (
    arith,
    text_eq.beq_iff (account_key email) (account_key email),
    counter_of-set_counter w.counters (account_key email) (account_key email)
        (counted (failures w)),
  )

  pub count_account_calls :
      (w : World)
      → is_enforced ext.settings.login_account_policy ≡ true
      → (count_account_failure ext email w).1.calls ≡ suc w.calls
  unfolding count_account_failure limiter_hit
  count_account_calls w on = grind arith

  pub count_failure-counted :
      (device : DeviceInfo) (w : World) (last : ℕ)
      → is_enforced ext.settings.login_account_policy ≡ true
      → Open (failures w) last
      → (count_failure ext email device w).1.calls ≤ last
      → (failures (count_failure ext email device w).1 ≡ counted (failures w))
        × (w.calls ≤ (count_failure ext email device w).1.calls)
  unfolding count_failure
  count_failure-counted device w last on live bound =
      let (passed, same, later) = count_ip_still device.ip_address w in
      let w1 : World = (count_ip_failure ext device.ip_address w).1 in
      let calls = count_account_calls w1 on in
      let below : w1.calls ≤ last = grind (arith, bound, passed, calls) in
      let charged = count_account_counted w1 on (grind (arith, live w1.calls below, same)) in
      (grind (arith, passed, charged, same), grind (arith, passed, later, calls))
