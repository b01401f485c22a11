-- ===== src/Theorems/Accounts.antt =====
-- What the owner of an account can do: sign devices out, change the profile, sign up.
use video_site.Common.{
  ℕ, String, ◌≡◌, ◌≢◌, refl, inl, inr, false, Option, none, some, List, [], ◌∷◌, ◌==◌, nat_eq,
  text_eq, find, update_where, arith, Bool-cases, strip, if◌then◌else◌,
}
use video_site.Errors.{Result, ok, err, Result-cases}
use mathlib.Core.Option
use video_site.Database.{Db, UserRow}
use video_site.Database.Tokens
use video_site.Service.TokenService.{generate}
use video_site.Auth.Verification.{issue_verification}
use video_site.Database.Users.Laws.{find-rewrite, found_id}
use video_site.Entities.Datetime.{Datetime, utc}
use video_site.Entities.User.{User}
use video_site.Entities.Session.{AuthSession}
use video_site.Database.Users
use video_site.Database.Sessions
use video_site.Database.Sessions.{get_by_jti, is_target, revoked_session}
use video_site.Database.AuditLog
use video_site.Theorems.Widths.{FitsAudit}
use video_site.Service.{
  Action, External, DeviceInfo, device_or_empty, World, UpdateUser, ◌>>=◌, ◌>>◌, commit, pure,
}
use video_site.Service.Steps.{audit, normalized}
use video_site.Auth.ChangePassword.{revoke_sessions}
use video_site.Auth.Verification.{update_user_row, send_verification}
use video_site.Auth.UpdateUser.{
  update_user, save_profile, change_email, change_username, change_display_name, when_given,
  renew_verification, send_pending,
}
use video_site.Accounts.{revoke_all_sessions, sign_out}

find-revoke_targets :
    (user_id : ℕ) (except_jti : Option String) (now : Datetime) (jti : String)
    (xs : List AuthSession) (s : AuthSession)
    → find (λ r. r.jti == jti) xs ≡ some s
    → find
        (λ r. r.jti == jti)
        (update_where (is_target user_id except_jti) (revoked_session now) xs)
      ≡ some (if is_target user_id except_jti s then revoked_session now s else s)
find-revoke_targets user_id except_jti now jti [] s found = absurd (ground arith)
find-revoke_targets user_id except_jti now jti (x ∷ xs) s found = elim (Bool-cases (x.jti == jti)) [
  | inl hit ↦ elim (Bool-cases (is_target user_id except_jti x)) [
    | inl reached ↦ grind arith
    | inr spared ↦ grind arith
  ]
  | inr miss ↦ elim (Bool-cases (is_target user_id except_jti x)) [
    | inl reached ↦ grind (arith, find-revoke_targets user_id except_jti now jti xs s)
    | inr spared ↦ grind (arith, find-revoke_targets user_id except_jti now jti xs s)
  ]
]

-- What signing devices out does to a session, if the event fits the audit log.
pub revoke_all_sessions_scope :
    (ext : External) (user_id : ℕ) (except_jti : Option String) (device : Option DeviceInfo)
    (w : World) (jti : String) (s : AuthSession)
    → get_by_jti w.db jti ≡ some s
    → FitsAudit (device_or_empty device)
    → get_by_jti (revoke_all_sessions ext user_id except_jti device w).1.db jti
      ≡ some (
          if is_target user_id except_jti s
          then revoked_session (utc (ext.utc_now w.calls)) s
          else s)
unfolding revoke_all_sessions sign_out revoke_sessions audit AuditLog.add get_by_jti
    Sessions.revoke_all_for_user
revoke_all_sessions_scope ext user_id except_jti device w jti s found fit = grind (
  arith,
  find-revoke_targets user_id except_jti (utc (ext.utc_now w.calls)) jti w.db.sessions s found,
)

-- A property of what an action returns, if it does not raise.
abbrev Returns : {A : Type 0} → (A → Type 0) → Result A × World → Type 0
Returns P (ok a, _) = P a
Returns P (err _, _) = Unit

change_email-Returns :
    (user : User) (email : String) (w : World)
    → (email == user.email) ≡ false
    → Returns
        (λ changed.
          (changed.email ≡ email)
          × (changed.email_verified_at ≡ none)
          × (Users.get_by_email w.work email ≡ none))
        (change_email user email w)
unfolding change_email
change_email-Returns user email w new = grind arith

change_email_frame : (user : User) (email : String) (w : World) → (change_email user email w).1 ≡ w
unfolding change_email
change_email_frame user email w = ground arith

change_username-Returns :
    (user : User) (name : String) (w : World)
    → Returns
        (λ changed.
          (changed.email ≡ user.email) × (changed.email_verified_at ≡ user.email_verified_at))
        (change_username user name w)
unfolding change_username
change_username-Returns user name w = grind arith

update_user_row-Returns :
    (ext : External) (user : User) (w : World)
    → Returns
        (λ updated.
          (updated.email ≡ user.email) × (updated.email_verified_at ≡ user.email_verified_at))
        (update_user_row ext user w)
unfolding update_user_row Users.update Users.user_to_entity
update_user_row-Returns ext user w = grind arith

renamed-Returns :
    (user : User) (username : Option String) (w : World)
    → Returns
        (λ changed.
          (changed.email ≡ user.email) × (changed.email_verified_at ≡ user.email_verified_at))
        (when_given user username (λ name. change_username user (strip name)) w)
renamed-Returns user none w = (refl, refl)
renamed-Returns user (some name) w = change_username-Returns user (strip name) w

-- The steps of `save_profile` that follow a change of the address.
finish-Returns :
    (ext : External) (input : UpdateUser) (user : User) (w : World)
    → Returns
        (λ (saved : User × Option (String × String)).
          (saved.0.email ≡ user.email) × (saved.0.email_verified_at ≡ user.email_verified_at))
        ((when_given user input.username (λ name. change_username user (strip name)) >>= (λ renamed.
            update_user_row ext (change_display_name renamed input.display_name) >>= (λ updated.
              renew_verification ext updated >>= (λ pending. commit >> pure (updated, pending)))))
          w)
finish-Returns ext input user w =
    grind (arith, renamed-Returns user input.username w, update_user_row-Returns ext)

save_profile-Returns :
    (ext : External) (user_id : ℕ) (input : UpdateUser) (email : String) (w : World) (before : User)
    → Users.get_by_id w.work user_id ≡ some before
    → input.email ≡ some email
    → (normalized ext email == before.email) ≡ false
    → Returns
        (λ (saved : User × Option (String × String)).
          (saved.0.email ≡ normalized ext email)
          × (saved.0.email_verified_at ≡ none)
          × (Users.get_by_email w.work (normalized ext email) ≡ none))
        (save_profile ext user_id input w)
unfolding save_profile
save_profile-Returns ext user_id input email w before found given new = grind (
  arith,
  change_email-Returns before (normalized ext email) w,
  change_email_frame,
  finish-Returns ext input,
)

-- The address of an account and when it was confirmed, as the table holds them.
abbrev pub address_of : Db → ℕ → Option (String × Option Datetime)
address_of db user_id =
    Option.map (λ (r : UserRow). (r.email, r.email_verified_at)) (Users.find_by_id db user_id)

update_user_row-stored :
    (ext : External) (user updated : User) (w : World)
    → (update_user_row ext user w).0 ≡ ok updated
    → address_of (update_user_row ext user w).1.work user.id
      ≡ some (updated.email, updated.email_verified_at)
unfolding update_user_row Users.update Users.user_to_entity Users.find_by_id
update_user_row-stored ext user updated w done = grind (
  arith,
  find-rewrite user.id user.id (Users.updated_row user (ext.on_update w.calls)) w.work.users
      (λ r. refl),
)

renew_verification_users :
    (ext : External) (user : User) (w : World)
    → (renew_verification ext user w).1.work.users ≡ w.work.users
unfolding renew_verification issue_verification generate Tokens.add Tokens.invalidate_for_user
renew_verification_users ext user w = grind arith

-- The steps of `save_profile` that follow the changes.
abbrev finish :
    External → Option String → User → World → Result (User × Option (String × String)) × World
finish ext name user = update_user_row ext (change_display_name user name) >>= (λ updated.
    renew_verification ext updated >>= (λ pending. commit >> pure (updated, pending)))

change_display_name_id :
    (user : User) (name : Option String) → (change_display_name user name).id ≡ user.id
change_display_name_id user none = refl
change_display_name_id user (some name) = refl

finish-stored :
    (ext : External) (name : Option String) (user : User) (w : World)
    (saved : User × Option (String × String))
    → (finish ext name user w).0 ≡ ok saved
    → address_of (finish ext name user w).1.db user.id
      ≡ some (saved.0.email, saved.0.email_verified_at)
unfolding Users.find_by_id
finish-stored ext name user w saved done =
    let user' = change_display_name user name in
    elim (Result-cases (update_user_row ext user' w).0) [
      | inl (updated, e) ↦ grind (
        arith,
        update_user_row-stored ext user' updated w e,
        renew_verification_users ext updated (update_user_row ext user' w).1,
        change_display_name_id user name,
      )
      | inr (error, e) ↦ absurd (grind arith)
    ]

change_email_id :
    (user : User) (email : String) (w : World)
    → Returns (λ changed. changed.id ≡ user.id) (change_email user email w)
unfolding change_email
change_email_id user email w = grind arith

change_username_id :
    (user : User) (name : String) (w : World)
    → Returns (λ changed. changed.id ≡ user.id) (change_username user name w)
unfolding change_username
change_username_id user name w = grind arith

change_username_frame :
    (user : User) (name : String) (w : World) → (change_username user name w).1 ≡ w
unfolding change_username
change_username_frame user name w = ground arith

-- A change that is given or not, and leaves the id and the state alone.
given_id :
    (user changed : User) (text : Option String) (change : String → Action User) (w : World)
    → ((s : String) → Returns (λ u. u.id ≡ user.id) (change s w))
    → ((s : String) → (change s w).1 ≡ w)
    → (when_given user text change w).0 ≡ ok changed
    → (changed.id ≡ user.id) × ((when_given user text change w).1 ≡ w)
given_id user changed none change w keeps frame done = (grind arith, refl)
given_id user changed (some s) change w keeps frame done = (grind (arith, keeps s), frame s)

save_profile-stored :
    (ext : External) (user_id : ℕ) (input : UpdateUser) (w : World) (before : User)
    (saved : User × Option (String × String))
    → Users.get_by_id w.work user_id ≡ some before
    → before.id ≡ user_id
    → (save_profile ext user_id input w).0 ≡ ok saved
    → address_of (save_profile ext user_id input w).1.db user_id
      ≡ some (saved.0.email, saved.0.email_verified_at)
unfolding save_profile
save_profile-stored ext user_id input w before saved found same done =
    let readdress : String → Action User = λ email. change_email before (normalized ext email) in
    elim (Result-cases (when_given before input.email readdress w).0) [
      | inl (readdressed, e) ↦
          let (id1, w1) =
            given_id before readdressed input.email readdress w
              (λ m. change_email_id before (normalized ext m) w)
              (λ m. change_email_frame before (normalized ext m) w) e in
          let rename : String → Action User = λ name. change_username readdressed (strip name) in
          elim (Result-cases (when_given readdressed input.username rename w).0) [
            | inl (renamed, e2) ↦
                let (id2, w2) =
                  given_id readdressed renamed input.username rename w
                    (λ n. change_username_id readdressed (strip n) w)
                    (λ n. change_username_frame readdressed (strip n) w) e2 in
                grind (arith, finish-stored ext input.display_name renamed w saved)
            | inr (error, e2) ↦ absurd (grind arith)
          ]
      | inr (error, e) ↦ absurd (grind arith)
    ]

-- A profile update that names a new address and succeeds leaves the stored account with that
-- address, normalized, and unconfirmed, and hands it back so; no account had the address before.
pub update_user_email :
    (ext : External) (user_id : ℕ) (input : UpdateUser) (email : String) (w : World)
    (before after : User)
    → Users.get_by_id w.db user_id ≡ some before
    → input.email ≡ some email
    → normalized ext email ≢ before.email
    → (update_user ext user_id input w).0 ≡ ok after
    → (address_of (update_user ext user_id input w).1.db user_id
        ≡ some (normalized ext email, none))
      × (after.email ≡ normalized ext email)
      × (after.email_verified_at ≡ none)
      × (Users.get_by_email w.db (normalized ext email) ≡ none)
unfolding update_user send_pending send_verification
update_user_email ext user_id input email w before after found given new done =
    let other : (normalized ext email == before.email) ≡ false =
      ground (arith, text_eq.beq_iff (normalized ext email) before.email) in
    let begun : World = record w { work = w.db } in
    let same = found_id w.db user_id before found in
    let shown = save_profile-Returns ext user_id input email begun before found given other in
    elim (Result-cases (save_profile ext user_id input begun).0) [
      | inl (saved, e) ↦ (
        grind (arith, shown, save_profile-stored ext user_id input begun before saved found same e),
        grind (arith, shown),
        grind (arith, shown),
        grind (arith, shown),
      )
      | inr (error, e) ↦ absurd (grind arith)
    ]
