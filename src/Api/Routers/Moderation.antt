-- ===== src/Api/Routers/Moderation.antt =====
-- infrastructure/api/routers/moderation.py: its routes depend on the permission users:ban.
use video_site.Common.{ℕ, some, []}
use video_site.Service.{External, Action, ◌>>=◌, pure}
use video_site.Moderation
use video_site.Api.Config.{Config}
use video_site.Api.Csrf.{ApiRequest}
use video_site.Api.Dependencies.{require_permission, get_device_info}
use video_site.Api.Models.{BanUserRequest, ban_user_fields}
use video_site.Api.Serializers.{to_user_response}
use video_site.Api.Routers.{Reply, reply, account, checked}

module _ (ext : External) (config : Config) where
  -- A request without a body has one without a reason.
  unfoldable pub ban_user : ℕ → BanUserRequest → ApiRequest → Action Reply
  ban_user user_id body request = do
    actor ← require_permission ext config "users" "ban" request
    checked (ban_user_fields body) (do
      banned ←
          Moderation.ban_user ext actor user_id body.reason (some (get_device_info request config))
      pure (reply 200 (account (to_user_response banned)) []))

  unfoldable pub unban_user : ℕ → ApiRequest → Action Reply
  unban_user user_id request = do
    actor ← require_permission ext config "users" "ban" request
    restored ← Moderation.unban_user ext actor user_id (some (get_device_info request config))
    pure (reply 200 (account (to_user_response restored)) [])
