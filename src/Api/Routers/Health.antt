-- ===== src/Api/Routers/Health.antt =====
-- infrastructure/api/routers/health.py. How `SELECT 1` ends is a parameter: none, or the text of
-- the exception.
use video_site.Common.{ℕ, String, Option, none, some, [], ◌∷◌}
use video_site.Service.{Action, ◌>>=◌, ask, pure}
use video_site.Api.Routers.{Reply, reply, fields}

unfoldable pub health : Reply
health = reply 200 (fields (("status", "ok") ∷ [])) []

unfoldable pub readiness : (ℕ → Option String) → Action Reply
readiness select_1 = do
  failure ← ask select_1
  elim failure [
    | some exc ↦ pure (reply 503 (fields (("status", "unavailable") ∷ ("database", exc) ∷ [])) [])
    | none ↦ pure (reply 200 (fields (("status", "ready") ∷ [])) [])
  ]
