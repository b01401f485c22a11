-- ===== src/RateLimit/Window.antt =====
-- The budget of a window: a run of attempts, each a moment and a key, against the limiter.
use Prim.Native.Nat.{min}
use video_site.Common.{
  ℕ, suc, ◌+◌, ◌-◌, ◌*◌, ◌≤◌, ◌<◌, String, ◌≡◌, refl, List, [], ◌∷◌, ◌&&◌, ◌==◌, text_eq, All,
  count_where, leb, arith, if◌then◌else◌,
}
use video_site.RateLimit.{Counter, Counters, counter_of, decide, charged, hit, second}
use video_site.RateLimit.Laws.{counter_of-set_counter}

-- The counter of `key` after a hit on `k`.
counter_of-hit :
    (counters : Counters) (now : ℕ) (k key : String) (limit window : ℕ)
    → counter_of (hit counters now k limit window).1 key
      ≡ (if k == key then charged (counter_of counters k) now window else counter_of counters key)
unfolding hit
counter_of-hit counters now k key limit window =
    counter_of-set_counter counters k key (charged (counter_of counters k) now window)

-- Whether a hit is allowed, by the counter that it leaves.
allowed-hit :
    (counters : Counters) (now : ℕ) (k : String) (limit window : ℕ)
    → (hit counters now k limit window).0.allowed
      ≡ leb (charged (counter_of counters k) now window).count limit
unfolding hit decide
allowed-hit counters now k limit window = refl

-- A hit in a window that lasts counts one more in the same window.
charged_live :
    (c : Counter) (now window : ℕ)
    → now < c.expires_at
    → charged c now window ≡ record c { count = c.count + 1 }
unfolding charged
charged_live c now window live = ground arith

module _ (limit window : ℕ) where
  -- The number of attempts on `key` that a run of hits allows.
  pub allowed_hits : Counters → String → List (ℕ × String) → ℕ
  allowed_hits counters key [] = 0
  allowed_hits counters key ((now, k) ∷ rest) =
      let (decision, counters') = hit counters now k limit window in
      (if k == key && decision.allowed then 1 else 0) + allowed_hits counters' key rest

  -- The number of attempts on `key` in a run.
  abbrev pub attempts : String → List (ℕ × String) → ℕ
  attempts key = count_where (λ e. e.1 == key)

  allowed_hits_live :
      (counters : Counters) (c : Counter) (key : String) (run : List (ℕ × String))
      → counter_of counters key ≡ c
      → All (λ e. e.0 < c.expires_at) run
      → allowed_hits counters key run ≡ min (attempts key run) (limit - c.count)
  unfolding allowed_hits
  allowed_hits_live counters c key [] eq live = ground arith
  allowed_hits_live counters c key ((now, k) ∷ rest) eq live = ground (
    arith,
    text_eq.beq_iff k key,
    counter_of-hit counters now k key limit window,
    allowed-hit counters now k limit window,
    charged_live c now window live.0,
    allowed_hits_live (hit counters now k limit window).1 (record c { count = c.count + 1 }) key
        rest,
    allowed_hits_live (hit counters now k limit window).1 c key rest,
  )

  -- From the first hit on a key whose window has run out, and for as long as the new window lasts,
  -- exactly as many attempts on the key are allowed as were made, up to the limit, whatever hits on
  -- other keys come in between.
  pub window_budget :
      (counters : Counters) (key : String) (now : ℕ) (run : List (ℕ × String))
      → (counter_of counters key).expires_at ≤ now
      → All (λ e. e.0 < now + window * second) run
      → allowed_hits counters key ((now, key) ∷ run) ≡ min (suc (attempts key run)) limit
  unfolding allowed_hits charged
  window_budget counters key now run over live = ground (
    arith,
    text_eq.beq_iff key key,
    counter_of-hit counters now key key limit window,
    allowed-hit counters now key limit window,
    allowed_hits_live (hit counters now key limit window).1
        (record { count = 1; expires_at = now + window * second }) key run,
  )
