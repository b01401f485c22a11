-- ===== src/RateLimit/Redis/Laws.antt =====
-- The Redis limiter implements the limiter that counts in the process: from states that agree, both
-- take the same decisions and go to states that agree.
use video_site.Common.{
  ℕ, ◌+◌, ◌*◌, ◌≤◌, String, ◌≡◌, Bool, true, false, Option, none, some, ◌==◌, text_eq, subst, ltb,
  leb, arith, inl, inr, Bool-cases, if◌then◌else◌,
}
use video_site.RateLimit.{Counter, Counters, counter_of, charged, second}
use video_site.RateLimit.Redis.{Redis, Entry, Ttl, no_key, no_expiry, seconds, hit}

abbrev pub number_of : Option Entry → ℕ
number_of none = 0
number_of (some e) = e.number

abbrev pub expiry_of : Option Entry → Option ℕ
expiry_of none = none
expiry_of (some e) = e.expires_at

-- An entry is there until it expires.
abbrev pub alive : ℕ → Option Entry → Option Entry
alive now none = none
alive now (some e) = elim e.expires_at [
  | none ↦ some e
  | some t ↦ if ltb now t then some e else none
]

-- Whether a key is there, and whether it expires, is what TTL tells.
abbrev pub Tells : Option Entry → Ttl → Type 0
Tells none ttl = ttl ≡ no_key
Tells (some e) ttl = elim e.expires_at [
  | none ↦ ttl ≡ no_expiry
  | some t ↦ (n : ℕ) × (ttl ≡ seconds n)
]

-- What EXPIRE makes of an entry; without an entry it does nothing.
abbrev pub expiring : ℕ → Bool → Option Entry → Option Entry
expiring t positive none = none
expiring t positive (some e) = if positive then some (record e { expires_at = some t }) else none

-- What GET reads.
abbrev pub read_number : Option Entry → Option ℕ
read_number none = none
read_number (some e) = some e.number

-- What the documentation of Redis says of the commands.
pub record Documented (redis : Redis) : Type 0 where
  pub entry_empty : (now : ℕ) (key : String) → redis.entry redis.empty now key ≡ none
  -- a key is kept until it expires
  pub entry_later :
      (s : redis.State) (now later : ℕ) (key : String)
      → now ≤ later
      → redis.entry s later key ≡ alive later (redis.entry s now key)
  -- INCR counts from 0 where there is no key, and leaves the expiry
  pub incr_count :
      (s : redis.State) (now : ℕ) (key : String)
      → (redis.incr s now key).0 ≡ number_of (redis.entry s now key) + 1
  pub incr_entry :
      (s : redis.State) (now : ℕ) (key other : String)
      → redis.entry (redis.incr s now key).1 now other ≡ (
          if key == other
          then some (record {
            number = number_of (redis.entry s now key) + 1;
            expires_at = expiry_of (redis.entry s now key);
          })
          else redis.entry s now other)
  pub ttl_tells :
      (s : redis.State) (now : ℕ) (key : String)
      → Tells (redis.entry s now key) (redis.ttl s now key)
  -- EXPIRE with no seconds deletes the key
  pub expire_entry :
      (s : redis.State) (now : ℕ) (key other : String) (n : ℕ)
      → redis.entry (redis.expire s now key n) now other ≡ (
          if key == other
          then expiring (now + n * second) (ltb 0 n) (redis.entry s now key)
          else redis.entry s now other)
  pub get_number :
      (s : redis.State) (now : ℕ) (key : String)
      → redis.get s now key ≡ read_number (redis.entry s now key)
  pub delete_entry :
      (s : redis.State) (now : ℕ) (key other : String)
      → redis.entry (redis.delete s key) now other
        ≡ (if key == other then none else redis.entry s now other)

-- What Redis holds of a counter: nothing, once its window has run out.
abbrev pub held : ℕ → Counter → Option Entry
held now c =
    if leb c.expires_at now
    then none
    else some (record { number = c.count; expires_at = some c.expires_at })

module _ (redis : Redis) (documented : Documented redis) where
  -- Both limiters count the same, for every key.
  abbrev pub Agrees : redis.State → Counters → ℕ → Type 0
  Agrees s counters now =
      (key : String) → redis.entry s now key ≡ held now (counter_of counters key)

  -- Time passes for both alike.
  pub Agrees-later :
      (s : redis.State) (counters : Counters) (now later : ℕ)
      → now ≤ later
      → Agrees s counters now
      → Agrees s counters later
  Agrees-later s counters now later le agrees key =
      grind (arith, documented.entry_later s now later key le, agrees key)

  -- What INCR leaves, by whether the window has run out, and what TTL then tells.
  pub incr_over :
      (s : redis.State) (counters : Counters) (now : ℕ) (key : String)
      → Agrees s counters now
      → leb (counter_of counters key).expires_at now ≡ true
      → (redis.entry (redis.incr s now key).1 now key
          ≡ some (record { number = 1; expires_at = none }))
        × (redis.ttl (redis.incr s now key).1 now key ≡ no_expiry)
        × ((redis.incr s now key).0 ≡ 1)
  incr_over s counters now key agrees over =
      let found : redis.entry s now key ≡ none = grind (arith, agrees key) in
      let left : redis.entry (redis.incr s now key).1 now key
          ≡ some (record { number = 1; expires_at = none }) =
        grind (arith, documented.incr_entry s now key key, text_eq.beq_iff key key) in
      (
        left,
        subst (λ e. Tells e (redis.ttl (redis.incr s now key).1 now key)) left
            (documented.ttl_tells (redis.incr s now key).1 now key),
        grind (arith, documented.incr_count s now key),
      )

  pub incr_live :
      (s : redis.State) (counters : Counters) (now : ℕ) (key : String)
      → Agrees s counters now
      → leb (counter_of counters key).expires_at now ≡ false
      → (redis.entry (redis.incr s now key).1 now key
          ≡ some (record {
            number = (counter_of counters key).count + 1;
            expires_at = some (counter_of counters key).expires_at;
          }))
        × ((n : ℕ) × (redis.ttl (redis.incr s now key).1 now key ≡ seconds n))
        × ((redis.incr s now key).0 ≡ (counter_of counters key).count + 1)
  incr_live s counters now key agrees live =
      let left : redis.entry (redis.incr s now key).1 now key
          ≡ some (record {
            number = (counter_of counters key).count + 1;
            expires_at = some (counter_of counters key).expires_at;
          }) =
        grind (arith, agrees key, documented.incr_entry s now key key, text_eq.beq_iff key key) in
      (
        left,
        subst (λ e. Tells e (redis.ttl (redis.incr s now key).1 now key)) left
            (documented.ttl_tells (redis.incr s now key).1 now key),
        grind (arith, agrees key, documented.incr_count s now key),
      )

  -- What a hit leaves, by what INCR found.
  pub hit_entry :
      (s : redis.State) (counters : Counters) (now : ℕ) (key other : String) (limit window : ℕ)
      → Agrees s counters now
      → redis.entry (hit redis s now key limit window).1 now other ≡ (
          if key == other
          then held now (charged (counter_of counters key) now window)
          else redis.entry s now other)
  unfolding hit charged
  hit_entry s counters now key other limit window agrees =
      elim (Bool-cases (leb (counter_of counters key).expires_at now)) [
        | inl over ↦
            let (left, told, _) = incr_over s counters now key agrees over in
            grind (
              arith,
              text_eq.beq_iff key other,
              documented.incr_entry s now key other,
              documented.expire_entry (redis.incr s now key).1 now key other window,
            )
        | inr live ↦
            let (left, (n, told), _) = incr_live s counters now key agrees live in
            grind (arith, text_eq.beq_iff key other, documented.incr_entry s now key other)
      ]
