-- ===== src/Theorems/Revoked.antt =====
-- A session that has been revoked is refused from then on, whatever is asked of the service in
-- between.
use video_site.Common.{
  ℕ, String, ◌≡◌, refl, true, Option, some, List, [], ◌∷◌, ◌==◌, nat_eq, text_eq, find, arith,
  update_where, ◌&&◌, ◌++◌, not, Grown, Bool-cases, Option-cases, suc, inl, inr,
}
use video_site.Errors.{ok, err, authentication}
use video_site.Entities.Session.{AuthSession, is_revoked, is_valid}
use video_site.Database.{Db}
use video_site.Database.Sessions
use video_site.Database.Sessions.{get_by_jti, revoked_session}
use video_site.Database.Sessions.Laws.{SignedOut}
use video_site.Service.{External, DeviceInfo, AuthResult, ChangePassword, World}
use video_site.Service.TokenService.{TokenPayload, decode, issue_access, issue_refresh}
use video_site.Auth.Refresh.{refresh, exchange, rotate, valid_only, active_only}
use video_site.Auth.Authenticate.{authenticate, resolve}
use video_site.Requests.{Request, run}
use video_site.Theorems.SignOut.{change_password_effect}
use video_site.Auth.ChangePassword.{change_password}
use video_site.Theorems.Kept.{OnOk}
use video_site.Theorems.History.{SessionHistory, run-Evolves}
use video_site.Entities.Datetime.{Datetime, utc}

-- A revoked session is still found under its `jti`, and is still revoked.
find_revoked :
    (jti : String) (xs ys : List AuthSession) (s : AuthSession)
    → Grown SessionHistory xs ys
    → find (λ r. r.jti == jti) xs ≡ some s
    → is_revoked s ≡ true
    → (t : AuthSession) × (find (λ r. r.jti == jti) ys ≡ some t) × (is_revoked t ≡ true)
find_revoked jti [] ys s grown found dead = absurd (ground arith)
find_revoked jti (x ∷ xs) [] s grown found dead = absurd grown
find_revoked jti (x ∷ xs) (y ∷ ys) s (same, rest) found dead = elim (Bool-cases (x.jti == jti)) [
  | inl hit ↦ (y, ground arith, ground arith)
  | inr miss ↦
      let (t, here, gone) = find_revoked jti xs ys s rest (ground arith) dead in
      (t, ground arith, gone)
]

find-revoke_list :
    (jti : String) (now : Datetime) (xs : List AuthSession) (s : AuthSession)
    → find (λ r. r.jti == jti) xs ≡ some s
    → (t : AuthSession) × (find
          (λ r. r.jti == jti)
          (update_where (λ r. r.jti == jti && not (is_revoked r)) (revoked_session now) xs)
        ≡ some t)
      × (is_revoked t ≡ true)
find-revoke_list jti now [] s found = absurd (ground arith)
find-revoke_list jti now (x ∷ xs) s found = elim (Bool-cases (x.jti == jti)) [
  | inl hit ↦ elim (Bool-cases (is_revoked x)) [
    | inl old ↦ (x, ground arith, old)
    | inr new ↦ (revoked_session now x, ground arith, refl)
  ]
  | inr miss ↦
      let (t, here, gone) = find-revoke_list jti now xs s (ground arith) in (t, ground arith, gone)
]

find-append :
    (jti : String) (xs ys : List AuthSession) (s : AuthSession)
    → find (λ r. r.jti == jti) xs ≡ some s
    → find (λ r. r.jti == jti) (xs ++ ys) ≡ some s
find-append jti [] ys s found = absurd (ground arith)
find-append jti (x ∷ xs) ys s found = ground (arith, find-append jti xs ys s)

-- A revocation by `jti` reaches the session that is found under it.
find-revoke :
    (db : Db) (jti : String) (now : Datetime) (s : AuthSession)
    → get_by_jti db jti ≡ some s
    → (t : AuthSession) × (get_by_jti (Sessions.revoke db jti now) jti ≡ some t)
      × (is_revoked t ≡ true)
unfolding get_by_jti Sessions.revoke
find-revoke db jti now s found = find-revoke_list jti now db.sessions s found

-- A session that is there is found after another was added.
add_keeps :
    (db : Db) (jti : String) (new t : AuthSession)
    → get_by_jti db jti ≡ some t
    → OnOk (λ db'. get_by_jti db' jti ≡ some t) (Sessions.add db new)
unfolding get_by_jti Sessions.add
add_keeps db jti new t found =
    ground (arith, find-append jti db.sessions (record new { id = db.next_id } ∷ []) t)

module _ (ext : External) (w : World) (token : String) (device : Option DeviceInfo)
    (result : AuthResult) (payload : TokenPayload) where
  abbrev refreshed : World
  refreshed = (refresh ext token device w).1

  refresh-is_revoked :
      (refresh ext token device w).0 ≡ ok result
      → (decode ext token w).0 ≡ ok payload
      → (t : AuthSession) × (get_by_jti refreshed.db payload.jti ≡ some t) × (is_revoked t ≡ true)
  unfolding refresh exchange rotate decode valid_only active_only issue_access issue_refresh
  refresh-is_revoked h decoded = elim (Option-cases (get_by_jti w.db payload.jti)) [
    | inl e ↦ absurd (grind arith)
    | inr (s, e) ↦
        let (t, here, gone) =
          find-revoke w.db payload.jti (utc (ext.utc_now (suc (suc w.calls)))) s e in
        (t, grind (arith, add_keeps), gone)
  ]

  refresh_kind :
      (refresh ext token device w).0 ≡ ok result
      → (decode ext token w).0 ≡ ok payload
      → payload.token_type ≡ "refresh"
  unfolding refresh decode
  refresh_kind h decoded = grind (arith, text_eq.beq_iff)

module _ (ext : External) (w : World) (jti : String) (s : AuthSession) (requests : List Request)
    (found : get_by_jti w.db jti ≡ some s) (dead : is_revoked s ≡ true) (token : String)
    (payload : TokenPayload) where
  abbrev later : World
  later = run ext requests w

  still_revoked : (t : AuthSession) × (get_by_jti later.db jti ≡ some t) × (is_revoked t ≡ true)
  unfolding get_by_jti
  still_revoked =
      find_revoked jti w.db.sessions later.db.sessions s (run-Evolves ext requests w).sessions found
        dead

  -- Once a session is revoked, an access token of it is refused, whatever requests are handled in
  -- between.
  pub authenticate_revoked :
      (decode ext token later).0 ≡ ok payload
      → payload.token_type ≡ "access"
      → payload.jti ≡ jti
      → (authenticate ext token later).0 ≡ err (authentication "Session is no longer valid")
  unfolding authenticate resolve decode valid_only is_valid
  authenticate_revoked decoded kind own =
      let (t, here, gone) = still_revoked in grind (arith, text_eq.beq_iff)

  -- Once a session is revoked, a refresh token of it is refused, whatever requests are handled in
  -- between.
  pub refresh_revoked :
      (device : Option DeviceInfo)
      → (decode ext token later).0 ≡ ok payload
      → payload.token_type ≡ "refresh"
      → payload.jti ≡ jti
      → (refresh ext token device later).0
        ≡ err (authentication "Refresh session is no longer valid")
  unfolding refresh exchange decode valid_only is_valid
  refresh_revoked device decoded kind own =
      let (t, here, gone) = still_revoked in grind (arith, text_eq.beq_iff)

-- A refresh token is spent by its use: when a refresh has succeeded and any requests were handled
-- since, the same token is refused, as long as it decodes to the same payload.
pub refresh_replay :
    (ext : External) (w : World) (token : String) (first second : Option DeviceInfo)
    (result : AuthResult) (payload : TokenPayload) (requests : List Request)
    → (refresh ext token first w).0 ≡ ok result
    → (decode ext token w).0 ≡ ok payload
    → (decode ext token (run ext requests (refresh ext token first w).1)).0 ≡ ok payload
    → (refresh ext token second (run ext requests (refresh ext token first w).1)).0
      ≡ err (authentication "Refresh session is no longer valid")
refresh_replay ext w token first second result payload requests h decoded again =
    let (t, here, gone) = refresh-is_revoked ext w token first result payload h decoded in
    refresh_revoked ext (refresh ext token first w).1 payload.jti t requests here gone token payload
      second again (refresh_kind ext w token first result payload h decoded) refl

SignedOut-is_revoked :
    (user_id : ℕ) (jti : String) (xs : List AuthSession) (s : AuthSession)
    → SignedOut user_id xs
    → find (λ r. r.jti == jti) xs ≡ some s
    → s.user_id ≡ user_id
    → is_revoked s ≡ true
SignedOut-is_revoked user_id jti [] s out found own = absurd (ground arith)
SignedOut-is_revoked user_id jti (x ∷ xs) s out found own =
    ground (arith, SignedOut-is_revoked user_id jti xs s out.1)

-- After a password change that succeeded, and any requests since, an access token is refused if it
-- decodes and its session was there after the change and belongs to the account.
pub change_password-authenticate :
    (ext : External) (user_id : ℕ) (input : ChangePassword) (device : Option DeviceInfo) (w : World)
    (n : ℕ) (s : AuthSession) (requests : List Request) (token : String) (payload : TokenPayload)
    → (change_password ext user_id input device w).0 ≡ ok n
    → get_by_jti (change_password ext user_id input device w).1.db payload.jti ≡ some s
    → s.user_id ≡ user_id
    → (decode ext token (run ext requests (change_password ext user_id input device w).1)).0
      ≡ ok payload
    → payload.token_type ≡ "access"
    → (authenticate ext token (run ext requests (change_password ext user_id input device w).1)).0
      ≡ err (authentication "Session is no longer valid")
unfolding get_by_jti
change_password-authenticate ext user_id input device w n s requests token payload h found own
      decoded kind =
    let after : World = (change_password ext user_id input device w).1 in
    let out = (change_password_effect ext user_id input device w n h).0 in
    authenticate_revoked ext after payload.jti s requests found
      (SignedOut-is_revoked user_id payload.jti after.db.sessions s out found own) token payload
      decoded kind refl
