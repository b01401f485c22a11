-- ===== src/RateLimit/Redis/Refinement.antt =====
-- The Redis limiter refines the limiter that counts in the process: the same calls at the same
-- moments get the same answers from both.
use video_site.Common.{
  ℕ, ◌≤◌, String, ◌≡◌, refl, Bool, Option, none, some, List, [], ◌∷◌, text_eq, leb, arith,
  Bool-cases, inl, inr,
}
use video_site.RateLimit
use video_site.RateLimit.{Counters, counter_of, charged, set_counter, pop, second}
use video_site.RateLimit.Laws.{counter_of-set_counter, counter_of-pop}
use video_site.RateLimit.Redis
use video_site.RateLimit.Redis.{Redis, no_key, no_expiry, seconds}
use video_site.RateLimit.Redis.Laws.{
  Documented, Agrees, Agrees-later, hit_entry, incr_over, incr_live,
}

-- The calls of a limiter: `hit` and `peek` with their limits and windows, and `reset`.
pub data Call : Type 0 where
  hit : String → ℕ → ℕ → Call
  peek : String → ℕ → Call
  reset : String → Call

-- What a call answers: whether the attempt is allowed, and how many remain.
abbrev pub Answer : Type 0
Answer = Option (Bool × ℕ)

-- The calls come at moments that do not go back.
abbrev pub Ascending : ℕ → List (ℕ × Call) → Type 0
Ascending from [] = Unit
Ascending from ((now, _) ∷ calls) = (from ≤ now) × Ascending now calls

unfoldable pub memory_step : ℕ → Call → Counters → Answer × Counters
memory_step now (hit key limit window) counters =
    let (decision, counters') = RateLimit.hit counters now key limit window in
    (some (decision.allowed, decision.remaining), counters')
memory_step now (peek key limit) counters =
    let decision = RateLimit.peek counters now key limit in
    (some (decision.allowed, decision.remaining), counters)
memory_step now (reset key) counters = (none, RateLimit.reset counters key)

unfoldable pub memory_answers : List (ℕ × Call) → Counters → List Answer
unfolding memory_step
memory_answers [] counters = []
memory_answers ((now, call) ∷ calls) counters =
    let (answer, counters') = memory_step now call counters in
    answer ∷ memory_answers calls counters'

module _ (redis : Redis) where
  unfoldable pub redis_step : ℕ → Call → redis.State → Answer × redis.State
  redis_step now (hit key limit window) s =
      let (decision, s') = Redis.hit redis s now key limit window in
      (some (decision.allowed, decision.remaining), s')
  redis_step now (peek key limit) s =
      let decision = Redis.peek redis s now key limit in
      (some (decision.allowed, decision.remaining), s)
  redis_step now (reset key) s = (none, Redis.reset redis s key)

  unfoldable pub redis_answers : List (ℕ × Call) → redis.State → List Answer
  unfolding redis_step
  redis_answers [] s = []
  redis_answers ((now, call) ∷ calls) s =
      let (answer, s') = redis_step now call s in answer ∷ redis_answers calls s'

  module _ (documented : Documented redis) where
    hit_same :
        (s : redis.State) (counters : Counters) (now : ℕ) (key : String) (limit window : ℕ)
        → Agrees redis documented s counters now
        → (redis_step now (hit key limit window) s).0
          ≡ (memory_step now (hit key limit window) counters).0
    unfolding redis_step memory_step Redis.hit RateLimit.hit RateLimit.charged RateLimit.decide
        Redis.decide
    hit_same s counters now key limit window agrees =
        elim (Bool-cases (leb (counter_of counters key).expires_at now)) [
          | inl over ↦
              let (_, told, count) = incr_over redis documented s counters now key agrees over in
              grind arith
          | inr live ↦
              let (_, (n, told), count) =
                incr_live redis documented s counters now key agrees live in
              grind arith
        ]

    peek_same :
        (s : redis.State) (counters : Counters) (now : ℕ) (key : String) (limit : ℕ)
        → Agrees redis documented s counters now
        → (redis_step now (peek key limit) s).0 ≡ (memory_step now (peek key limit) counters).0
    unfolding redis_step memory_step Redis.peek RateLimit.peek RateLimit.decide Redis.decide
    peek_same s counters now key limit agrees =
        grind (arith, agrees key, documented.get_number s now key)

    step_Agrees :
        (call : Call) (s : redis.State) (counters : Counters) (now : ℕ)
        → Agrees redis documented s counters now
        → Agrees redis documented (redis_step now call s).1 (memory_step now call counters).1 now
    unfolding redis_step memory_step RateLimit.hit RateLimit.reset Redis.reset
    step_Agrees (hit key limit window) s counters now agrees other = grind (
      arith,
      agrees other,
      hit_entry redis documented s counters now key other limit window agrees,
      counter_of-set_counter counters key other (charged (counter_of counters key) now window),
    )
    step_Agrees (peek key limit) s counters now agrees other = agrees other
    step_Agrees (reset key) s counters now agrees other = grind (
      arith,
      agrees other,
      documented.delete_entry s now key other,
      counter_of-pop counters key other,
    )

    step_same :
        (call : Call) (s : redis.State) (counters : Counters) (now : ℕ)
        → Agrees redis documented s counters now
        → (redis_step now call s).0 ≡ (memory_step now call counters).0
    unfolding redis_step memory_step
    step_same (hit key limit window) s counters now agrees =
        hit_same s counters now key limit window agrees
    step_same (peek key limit) s counters now agrees = peek_same s counters now key limit agrees
    step_same (reset key) s counters now agrees = refl

    answers_from :
        (calls : List (ℕ × Call)) (s : redis.State) (counters : Counters) (from : ℕ)
        → Agrees redis documented s counters from
        → Ascending from calls
        → redis_answers calls s ≡ memory_answers calls counters
    unfolding redis_answers memory_answers
    answers_from [] s counters from agrees ascending = refl
    answers_from ((now, call) ∷ calls) s counters from agrees (le, ascending) =
        let agrees' = Agrees-later redis documented s counters from now le agrees in
        grind (
          arith,
          step_same call s counters now agrees',
          answers_from calls _ _ now (step_Agrees call s counters now agrees') ascending,
        )

    empty_Agrees : Agrees redis documented redis.empty [] 0
    unfolding counter_of
    empty_Agrees key = grind (arith, documented.entry_empty 0 key)

    -- Calls at moments that do not go back, on keys that were never charged, are answered alike by
    -- the Redis limiter and by the one in the process, as to whether an attempt is allowed and how
    -- many remain, if Redis does what its documentation says.
    pub redis_answers-memory_answers :
        (calls : List (ℕ × Call))
        → Ascending 0 calls
        → redis_answers calls redis.empty ≡ memory_answers calls []
    redis_answers-memory_answers calls ascending =
        answers_from calls redis.empty [] 0 empty_Agrees ascending
