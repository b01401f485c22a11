-- ===== src/Service/Dto.antt =====
-- application/common/dto.py.
use video_site.Common.{String, Option, none}
use video_site.Entities.Datetime.{Datetime}
use video_site.Entities.User.{User}

pub record DeviceInfo : Type 0 where
  pub visitor_id : Option String
  pub user_agent : Option String
  pub ip_address : Option String
  pub device : Option String

-- `device or DeviceInfoDTO()`.
abbrev pub device_or_empty : Option DeviceInfo → DeviceInfo
device_or_empty none = record {
  visitor_id = none;
  user_agent = none;
  ip_address = none;
  device = none;
}
device_or_empty (Option.some d) = d

pub record RegisterUser : Type 0 where
  pub email : String
  pub username : String
  pub password : String
  pub password_repeat : String
  pub display_name : Option String
  pub visitor_id : Option String

pub record UpdateUser : Type 0 where
  pub username : Option String
  pub display_name : Option String
  pub email : Option String

pub record Login : Type 0 where
  pub email : String
  pub password : String

pub record ChangePassword : Type 0 where
  pub current_password : String
  pub new_password : String
  pub new_password_repeat : String

pub record ResetPassword : Type 0 where
  pub token : String
  pub password : String
  pub password_repeat : String

pub record AuthToken : Type 0 where
  pub access_token : String
  pub refresh_token : String
  pub token_type : String
  pub access_expires_at : Datetime
  pub refresh_expires_at : Datetime

pub record AuthResult : Type 0 where
  pub tokens : AuthToken
  pub user : User

pub record EmailMessage : Type 0 where
  pub to : String
  pub subject : String
  pub body : String
