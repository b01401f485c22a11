-- ===== src/Entities/Codes.antt =====
-- The permission codes of an account, against the permissions of its roles.
use video_site.Common.{
  String, true, false, ◌≡◌, refl, ◌∙◌, ◌&&◌, Bool-cases, inl, inr, List, [], ◌∷◌, ◌++◌, ◌||◌, ◌==◌,
  text_eq, map, any, arith, fstring,
}
use video_site.Common.Sorting.Laws.{is_ascending, any-sorted_set, is_ascending-sorted_set}
use video_site.Entities.User.{
  Permission, Role, User, code, grants, has_permission, role_codes, permission_codes,
}

codes_append :
    (k : String) (xs ys : List String)
    → any (λ t. t == k) (xs ++ ys) ≡ (any (λ t. t == k) xs || any (λ t. t == k) ys)
codes_append k [] ys = refl
codes_append k (x ∷ xs) ys = ground (arith, codes_append k xs ys)

codes_of_permissions :
    (k : String) (perms : List Permission)
    → any (λ t. t == k) (map code perms) ≡ any (λ perm. code perm == k) perms
codes_of_permissions k [] = refl
codes_of_permissions k (perm ∷ rest) = grind (arith, codes_of_permissions k rest)

any-role_codes :
    (k : String) (roles : List Role)
    → any (λ t. t == k) (role_codes roles)
      ≡ any (λ role. any (λ perm. code perm == k) role.permissions) roles
any-role_codes k [] = refl
any-role_codes k (role ∷ rest) = grind (
  arith,
  codes_append k (map code role.permissions) (role_codes rest),
  codes_of_permissions k role.permissions,
  any-role_codes k rest,
)

same_code :
    (resource action : String) (perm : Permission)
    → (perm.resource == resource && perm.action == action) ≡ true
    → (code perm == fstring (resource ∷ "." ∷ action ∷ [])) ≡ true
unfolding code
same_code resource action perm same = grind (
  arith,
  text_eq.beq_iff perm.resource resource,
  text_eq.beq_iff perm.action action,
  text_eq.beq_iff (code perm) (fstring (resource ∷ "." ∷ action ∷ [])),
)

granted_code :
    (resource action : String) (perms : List Permission)
    → any (λ perm. perm.resource == resource && perm.action == action) perms ≡ true
    → any (λ perm. code perm == fstring (resource ∷ "." ∷ action ∷ [])) perms ≡ true
granted_code resource action [] granted = absurd (grind arith)
granted_code resource action (perm ∷ rest) granted =
    elim (Bool-cases (perm.resource == resource && perm.action == action)) [
      | inl hit ↦ grind (arith, same_code resource action perm hit)
      | inr miss ↦ grind (arith, granted_code resource action rest)
    ]

granted_role :
    (resource action : String) (roles : List Role)
    → any (λ role. grants role resource action) roles ≡ true
    → any
        (λ role. any (λ perm. code perm == fstring (resource ∷ "." ∷ action ∷ [])) role.permissions)
        roles
      ≡ true
unfolding grants
granted_role resource action [] granted = absurd (grind arith)
granted_role resource action (role ∷ rest) granted =
    elim (Bool-cases (grants role resource action)) [
      | inl hit ↦ grind (arith, granted_code resource action role.permissions)
      | inr miss ↦ grind (arith, granted_role resource action rest)
    ]

-- The codes of an account are in strictly ascending order, so none is there twice; they are the
-- codes of the permissions of its roles and no others; and whatever an account that is no superuser
-- may do is among them.
pub permission_codes_complete :
    (user : User)
    → (is_ascending (permission_codes user) ≡ true)
      × ((k : String)
          → any (λ t. t == k) (permission_codes user)
            ≡ any (λ role. any (λ perm. code perm == k) role.permissions) user.roles)
      × ((resource action : String)
          → user.is_superuser ≡ false
          → has_permission user resource action ≡ true
          → any (λ t. t == fstring (resource ∷ "." ∷ action ∷ [])) (permission_codes user) ≡ true)
unfolding permission_codes has_permission
permission_codes_complete user = (
  is_ascending-sorted_set (role_codes user.roles),
  codes,
  λ resource action plain may. grind (
    arith,
    codes (fstring (resource ∷ "." ∷ action ∷ [])),
    granted_role resource action user.roles,
  ),
)
  where
    codes :
        (k : String)
        → any (λ t. t == k) (permission_codes user)
          ≡ any (λ role. any (λ perm. code perm == k) role.permissions) user.roles
    codes k = any-sorted_set k (role_codes user.roles) ∙ any-role_codes k user.roles
