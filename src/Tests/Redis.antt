-- ===== src/Tests/Redis.antt =====
-- A Redis to try its limiter on: a function from the keys to what they hold.
use video_site.Common.{
  ℕ, ◌+◌, ◌-◌, ◌*◌, ◌/◌, ◌≤◌, String, ◌≡◌, refl, Option, none, some, List, [], ◌∷◌, ◌==◌, text_eq,
  ltb, arith, if◌then◌else◌, Option-cases, inl, inr, Bool-cases,
}
use video_site.RateLimit.{second}
use video_site.RateLimit.Redis.{Redis, Entry, Ttl, no_key, no_expiry, seconds}
use video_site.RateLimit.Redis.Laws.{
  Documented, alive, number_of, expiry_of, read_number, expiring, Tells,
}
use video_site.RateLimit.Redis.Refinement.{
  Call, hit, peek, Ascending, redis_answers, memory_answers, redis_answers-memory_answers,
}

abbrev Keys : Type 0
Keys = String → Option Entry

abbrev put : Keys → String → Option Entry → Keys
put s key e other = if key == other then e else s other

abbrev entry_of : ℕ → Option ℕ → Entry
entry_of number expiry = record { number = number; expires_at = expiry }

abbrev ttl_of : ℕ → Option Entry → Ttl
ttl_of now none = no_key
ttl_of now (some e) = elim e.expires_at [ none ↦ no_expiry | some t ↦ seconds ((t - now) / second) ]

abbrev store : Redis
store = record {
  State = Keys;
  entry = λ s now key. alive now (s key);
  empty = λ key. none;
  incr = λ s now key. (
    number_of (alive now (s key)) + 1,
    put s key (
        some (record {
          number = number_of (alive now (s key)) + 1;
          expires_at = expiry_of (alive now (s key));
        })),
  );
  ttl = λ s now key. ttl_of now (alive now (s key));
  expire = λ s now key n. put s key (expiring (now + n * second) (ltb 0 n) (alive now (s key)));
  get = λ s now key. read_number (alive now (s key));
  delete = λ s key. put s key none;
}

alive-alive :
    (now later : ℕ) (o : Option Entry) → now ≤ later → alive later o ≡ alive later (alive now o)
alive-alive now later none le = refl
alive-alive now later (some e) le = elim (Option-cases e.expires_at) [
  | inl never ↦ grind arith
  | inr (t, ends) ↦ grind arith
]

Tells-parts :
    (now number : ℕ) (expiry : Option ℕ)
    → Tells (some (entry_of number expiry)) (ttl_of now (some (entry_of number expiry)))
Tells-parts now number none = refl
Tells-parts now number (some t) = ((t - now) / second, refl)

tells : (now : ℕ) (o : Option Entry) → Tells o (ttl_of now o)
tells now none = refl
tells now (some e) = Tells-parts now e.number e.expires_at

alive-put :
    (now : ℕ) (s : Keys) (key other : String) (e : Option Entry)
    → alive now e ≡ e
    → alive now (put s key e other) ≡ (if key == other then e else alive now (s other))
alive-put now s key other e lives = elim (Bool-cases (key == other)) [
  | inl same ↦ grind (arith, lives)
  | inr differs ↦ grind arith
]

alive_counted :
    (now m : ℕ) (o : Option Entry)
    → alive now (some (record { number = m; expires_at = expiry_of (alive now o) }))
      ≡ some (record { number = m; expires_at = expiry_of (alive now o) })
alive_counted now m none = refl
alive_counted now m (some e) = elim (Option-cases e.expires_at) [
  | inl never ↦ grind arith
  | inr (t, ends) ↦ grind arith
]

alive-expiring :
    (now n : ℕ) (o : Option Entry)
    → alive now (expiring (now + n * second) (ltb 0 n) o) ≡ expiring (now + n * second) (ltb 0 n) o
alive-expiring now n none = refl
alive-expiring now n (some e) = ground arith

documented : Documented store
documented = record {
  entry_empty = λ now key. refl;
  entry_later = λ s now later key le. alive-alive now later (s key) le;
  incr_count = λ s now key. refl;
  incr_entry = λ s now key other. alive-put now s key other _ (alive_counted now _ (s key));
  ttl_tells = λ s now key. tells now (alive now (s key));
  expire_entry =
      λ s now key other n. alive-put now s key other _ (alive-expiring now n (alive now (s key)));
  get_number = λ s now key. refl;
  delete_entry = λ s now key other. alive-put now s key other none refl;
}

-- Three attempts where two are allowed in ten seconds, a question, and an attempt in a new window.
abbrev calls : List (ℕ × Call)
calls =
    (0, hit "k" 2 10)
    ∷ (1, hit "k" 2 10)
    ∷ (2 * second, hit "k" 2 10)
    ∷ (3 * second, peek "k" 2)
    ∷ (11 * second, hit "k" 2 10)
    ∷ []

calls-Ascending : Ascending 0 calls
calls-Ascending = ground arith

redis_answers-memory_answers_example :
    redis_answers store calls store.empty ≡ memory_answers calls []
redis_answers-memory_answers_example =
    redis_answers-memory_answers store documented calls calls-Ascending
