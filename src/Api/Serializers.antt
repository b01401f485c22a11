-- ===== src/Api/Serializers.antt =====
-- infrastructure/api/serializers.py, and `model_validate` of the access-control models.
use video_site.Common.{String, Bool, false, Option, none, some, map, ◌==◌, text_eq}
use video_site.Entities.Datetime.{Datetime}
use video_site.Entities.User.{Permission, Role, User, is_email_verified, permission_codes}
use video_site.Entities.Session.{AuthSession, status}
use video_site.Service.{AuthToken}
use video_site.Api.Models.{
  TokenResponse, RoleSummary, UserResponse, PublicUserResponse, SessionSummary, PermissionResponse,
  RoleResponse,
}

abbrev role_summary : Role → RoleSummary
role_summary r = record { id = r.id; name = r.name; description = r.description }

unfoldable pub to_user_response : User → UserResponse
to_user_response user = record {
  id = user.id;
  email = user.email;
  username = user.username;
  display_name = user.display_name;
  is_active = user.is_active;
  is_superuser = user.is_superuser;
  email_verified = is_email_verified user;
  email_verified_at = user.email_verified_at;
  visitor_id = user.visitor_id;
  created_at = user.created_at;
  roles = map role_summary user.roles;
  permissions = permission_codes user;
}

unfoldable pub to_public_user_response : User → PublicUserResponse
to_public_user_response user = record {
  id = user.id;
  username = user.username;
  display_name = user.display_name;
  created_at = user.created_at;
}

-- `current_jti is not None and session.jti == current_jti`.
abbrev is_current : AuthSession → Option String → Bool
is_current session none = false
is_current session (some jti) = session.jti == jti

-- `to_session_summary`, at the moment at which `status` reads the clock.
unfoldable pub to_session_summary : Datetime → Option String → AuthSession → SessionSummary
to_session_summary now current_jti session = record {
  id = session.id;
  status = status session now;
  created_at = session.created_at;
  expires_at = session.expires_at;
  last_seen_at = session.last_seen_at;
  user_agent = session.user_agent;
  ip_address = session.ip_address;
  device = session.device;
  current = is_current session current_jti;
}

-- The `TokenResponse` of a session response.
unfoldable pub to_token_response : AuthToken → TokenResponse
to_token_response tokens = record {
  access_token = tokens.access_token;
  refresh_token = tokens.refresh_token;
  token_type = tokens.token_type;
  access_expires_at = tokens.access_expires_at;
  refresh_expires_at = tokens.refresh_expires_at;
}

unfoldable pub to_permission_response : Permission → PermissionResponse
to_permission_response p = record {
  id = p.id;
  resource = p.resource;
  action = p.action;
  description = p.description;
}

unfoldable pub to_role_response : Role → RoleResponse
unfolding to_permission_response
to_role_response r = record {
  id = r.id;
  name = r.name;
  description = r.description;
  permissions = map to_permission_response r.permissions;
}
