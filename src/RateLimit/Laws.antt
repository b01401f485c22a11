-- ===== src/RateLimit/Laws.antt =====
-- The dict of counters, and one call of the limiter against the next.
use video_site.Common.{
  ℕ, ◌+◌, ◌*◌, ◌≤◌, ◌<◌, max, String, ◌≡◌, ◌≢◌, refl, true, false, [], ◌∷◌, ◌==◌, text_eq, arith,
  if◌then◌else◌,
}
use video_site.RateLimit.{
  Counter, Counters, counter_of, set_counter, pop, decide, charged, hit, peek, reset, second,
}

abbrev fresh : Counter
fresh = record { count = 0; expires_at = 0 }

pub counter_of-set_counter :
    (counters : Counters) (key other : String) (c : Counter)
    → counter_of (set_counter counters key c) other
      ≡ (if key == other then c else counter_of counters other)
unfolding counter_of set_counter
counter_of-set_counter [] key other c = refl
counter_of-set_counter ((k, d) ∷ rest) key other c = ground (
  arith,
  text_eq.beq_iff key other,
  text_eq.beq_iff k key,
  text_eq.beq_iff k other,
  counter_of-set_counter rest key other c,
)

pub counter_of-pop :
    (counters : Counters) (key other : String)
    → counter_of (pop counters key) other
      ≡ (if key == other then fresh else counter_of counters other)
unfolding counter_of pop
counter_of-pop [] key other = ground arith
counter_of-pop ((k, d) ∷ rest) key other = ground (
  arith,
  text_eq.beq_iff key other,
  text_eq.beq_iff k key,
  text_eq.beq_iff k other,
  counter_of-pop rest key other,
)

-- `peek` foretells `hit`: at one instant it allows an attempt exactly when a hit there would be.
pub peek-hit :
    (counters : Counters) (now : ℕ) (key : String) (limit window : ℕ)
    → (peek counters now key limit).allowed ≡ (hit counters now key limit window).0.allowed
unfolding peek hit charged decide
peek-hit counters now key limit window = ground arith

-- A hit on one key changes nothing that a question about another key can see.
pub peek-hit_ne :
    (counters : Counters) (now later : ℕ) (key other : String) (limit limit' window : ℕ)
    → key ≢ other
    → peek (hit counters now key limit window).1 later other limit'
      ≡ peek counters later other limit'
unfolding peek hit
peek-hit_ne counters now later key other limit limit' window ne = ground (
  arith,
  counter_of-set_counter counters key other (charged (counter_of counters key) now window),
  text_eq.beq_iff key other,
)

-- After a reset the key is as if it had never been hit; the other keys keep their counters.
pub peek-reset :
    (counters : Counters) (now : ℕ) (key other : String) (limit : ℕ)
    → peek (reset counters key) now other limit
      ≡ (if key == other then decide 0 limit 0 false else peek counters now other limit)
unfolding peek reset
peek-reset counters now key other limit =
    ground (arith, counter_of-pop counters key other, text_eq.beq_iff key other)

module _ (counters : Counters) (now : ℕ) (key : String) (limit window : ℕ)
    (refused : (hit counters now key limit window).0.allowed ≡ false) where
  -- If no window outlasts its length from now, a refused hit asks for a wait of at least one second
  -- and of at most the window's length (one second for a window of none).
  retry_after_bounds :
      (counter_of counters key).expires_at ≤ now + window * second
      → let wait = (hit counters now key limit window).0.retry_after_seconds in
        (1 ≤ wait) × (wait ≤ max window 1)
  unfolding hit charged decide
  retry_after_bounds live = ground arith

  -- One second more than a refused hit asks for is always enough under a positive limit: an attempt
  -- from then on is allowed, if nothing else was charged to the key.
  pub retry_after_suffices :
      (later : ℕ)
      → 0 < limit
      → now + ((hit counters now key limit window).0.retry_after_seconds + 1) * second ≤ later
      → (peek (hit counters now key limit window).1 later key limit).allowed ≡ true
  unfolding hit peek charged decide
  retry_after_suffices later positive waited = ground (
    arith,
    counter_of-set_counter counters key key (charged (counter_of counters key) now window),
    text_eq.beq_iff key key,
  )
