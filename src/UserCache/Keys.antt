-- ===== src/UserCache/Keys.antt =====
-- The keys under which accounts are cached.
use video_site.Common.{ℕ, ◌≡◌, str, arith, str-injective, append_cancel, append_nil}
use video_site.Service.Steps.{user_cache_key}

-- No two accounts share a key: keys are the same only for the same id.
user_cache_key-injective : (m n : ℕ) → user_cache_key m ≡ user_cache_key n → m ≡ n
unfolding user_cache_key
user_cache_key-injective m n same =
    str-injective m n
      (grind (arith, append_cancel "auth:user:" _ _ same, append_nil (str m), append_nil (str n)))
