-- ===== src/Auth/Logout.antt =====
-- usecases/logout_usecase.py.
use video_site.Common.{String, Option, some, []}
use video_site.Errors.{ok, err}
use video_site.Entities.Audit.{AuditAction}
use video_site.Database.Sessions
use video_site.Service.{External, DeviceInfo, Action, ◌>>=◌, ◌>>◌, write, commit, transaction}
use video_site.Service.TokenService.{TokenPayload, decode}
use video_site.Service.Steps.{utc_now, audit}

module _ (ext : External) where
  unfoldable pub end_session : TokenPayload → Option DeviceInfo → Action (Unit {0})
  end_session payload device = do
    now ← utc_now ext
    write (λ db. Sessions.revoke db payload.jti now)
    audit ext AuditAction.logout (some payload.user_id) device []
    commit

  -- `LogoutUseCase.__call__`: a token that does not decode has nothing to revoke.
  unfoldable pub logout : String → Option DeviceInfo → Action (Unit {0})
  logout token device w =
      let (r, w') = decode ext token w in
      elim r [ ok payload ↦ transaction (end_session payload device) w' | err _ ↦ (ok tt, w') ]
