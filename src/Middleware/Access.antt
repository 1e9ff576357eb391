-- ===== src/Middleware/Access.antt =====
-- Who passes the middleware.
use mathlib.Core.List.{Memᴰ}
use clean_architect.Domain.{UserRole, Time}
use clean_architect.Errs.{GoError, message}
use clean_architect.Http.{Response, Handler, fresh, http_error, write_header}
use clean_architect.Service.Credentials.{Claims, Manager}
use clean_architect.Middleware.{has_role, must_have_at_least_one_role, log_request_body}
use clean_architect.Common.{
  ℕ, ◌≡◌, refl, ◌⊎◌, inl, inr, Bool, true, false, Option, none, some, List, [], ◌∷◌, arith,
  Bool-cases, Sum-cases, ◌==◌, nat_eq, Text, text_beq_iff, text_eq,
}

has_role_found : (r : Text) (roles : List UserRole) → has_role r roles true ≡ true
unfolding has_role
has_role_found r [] = refl
has_role_found r (role ∷ roles) = elim (Bool-cases (r == role)) [
  | inl e ↦ rw e (has_role_found r roles)
  | inr e ↦ rw e (has_role_found r roles)
]

has_role_sound : (r : Text) (roles : List UserRole) → has_role r roles false ≡ true → Memᴰ r roles
unfolding has_role
has_role_sound r [] h = absurd (ground arith)
has_role_sound r (role ∷ roles) h = elim (Bool-cases (r == role)) [
  | inl e ↦ Memᴰ.head ((text_beq_iff r role).0 e)
  | inr e ↦ Memᴰ.tail (has_role_sound r roles (rw e at h))
]

has_role_complete :
    (r : Text) (roles : List UserRole) → Memᴰ r roles → has_role r roles false ≡ true
unfolding has_role
has_role_complete r [] m = elim m [ ]
has_role_complete r (role ∷ roles) (Memᴰ.head e) =
    rw ((text_beq_iff r role).1 e) (has_role_found r roles)
has_role_complete r (role ∷ roles) (Memᴰ.tail m) = elim (Bool-cases (r == role)) [
  | inl e ↦ rw e (has_role_found r roles)
  | inr e ↦ rw e (has_role_complete r roles m)
]

module _ {R : Type 0} (extract_token : R → GoError ⊎ Text) (manager : Manager) (now : Time)
    (roles : List UserRole) where
  -- The request carries a token that verifies now, for one of the roles.
  abbrev pub IsGranted : R → Type 0
  IsGranted r =
      (token : Text) × (claims : Claims) × (extract_token r ≡ inr token)
      × (manager.verify_token now token ≡ inr claims)
      × Memᴰ claims.user_role roles

-- A status with which the middleware turns a request away.
abbrev pub IsDenial : Option ℕ → Type 0
IsDenial status = (status ≡ some 401) ⊎ ((status ≡ some 400) ⊎ (status ≡ some 403))

module _ {R V W : Type 0} (extract_token : R → GoError ⊎ Text) (manager : Manager) (now : Time)
    (roles : List UserRole) where
  -- A request that carries a token which verifies, for one of the roles, is handled as if the
  -- middleware were not there.
  pub granted_passes :
      (next : Handler R V W) (r : R) (w : Response V) (s : W)
      → IsGranted extract_token manager now roles r
      → must_have_at_least_one_role extract_token manager now roles next r w s ≡ next r w s
  unfolding must_have_at_least_one_role
  granted_passes next r w s (token, claims, found, verified, m) =
      rw (found, must_have_at_least_one_role)
        (rw verified (rw (has_role_complete claims.user_role roles m) refl))

  -- A request that carries no token which verifies for one of the roles never reaches the handler:
  -- whatever the handler, the state is as before and the answer is 401, 400 or 403.
  pub denied_stops :
      (next : Handler R V W) (r : R) (s : W)
      → ¬ IsGranted extract_token manager now roles r
      → ((must_have_at_least_one_role extract_token manager now roles next r fresh s).1 ≡ s)
        × IsDenial
            (must_have_at_least_one_role extract_token manager now roles next r fresh s).0.status
  unfolding must_have_at_least_one_role
  denied_stops next r s h = elim (Sum-cases (extract_token r)) [
    | inl (err, e) ↦ rw (e, must_have_at_least_one_role) (refl, inl refl)
    | inr (token, e) ↦ elim (Sum-cases (manager.verify_token now token)) [
      | inl (err, v) ↦ rw (e, must_have_at_least_one_role) (rw v (refl, inr (inl refl)))
      | inr (claims, v) ↦ elim (Bool-cases (has_role claims.user_role roles false)) [
        | inl m ↦ absurd (h (token, claims, e, v, has_role_sound claims.user_role roles m))
        | inr m ↦ rw (e, must_have_at_least_one_role) (rw v (rw m (refl, inr (inr refl))))
      ]
    ]
  ]

module _ {R V W L : Type 0} (read_all : R → GoError ⊎ Text) (is_eof : GoError → Bool)
    (unmarshal : Text → GoError ⊎ L) (log_line : Option L → W → W) (set_body : Text → R → R) where
  -- A body that is read and is no JSON does not stop the request: the error is written with status
  -- 400, and then the handler runs all the same, on that response. Whatever status the handler
  -- itself writes is dropped.
  pub log_request_body_continues :
      (next : Handler R V W) (r : R) (s : W) (b : Text) (err : GoError) (code : ℕ)
      → read_all r ≡ inr b
      → unmarshal b ≡ inl err
      → (log_request_body read_all is_eof unmarshal log_line set_body next r fresh s
          ≡ next (set_body b r) (http_error (message err) 400 fresh) (log_line none s))
        × (write_header code (http_error {V = V} (message err) 400 fresh)
            ≡ http_error (message err) 400 fresh)
  unfolding log_request_body write_header
  log_request_body_continues next r s b err code read bad =
      (rw (read, log_request_body) (rw bad refl), refl)
