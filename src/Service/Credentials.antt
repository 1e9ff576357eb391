-- ===== src/Service/Credentials.antt =====
-- internal/service/auth.go
pub mod Laws
use clean_architect.Domain.{Uuid, User, Auth, Time, role_normal, status_banned, zero_user}
use clean_architect.Errs.{
  GoError, new, not_found_error, text_error, is_error, mismatched_hash_and_password,
  code_forbidden_access, code_internal,
}
use clean_architect.Service.Users.{Deps}
use clean_architect.Synq.{World}
use clean_architect.Common.{
  ◌⊎◌, inl, inr, Option, none, some, [], if◌then◌else◌, ◌==◌, nat_eq, Text, txt, text_eq,
}
use clean_architect.Service.Users

-- The interfaces of pkg/hash and pkg/auth, as the service calls them.
pub record Hasher : Type 0 where
  pub hash : Text → GoError ⊎ Text
  pub compare : Text → Text → Option GoError

pub record Claims : Type 0 where
  pub user_id : Uuid
  pub user_role : Text

pub record Manager : Type 0 where
  pub create_token : Time → Uuid → Text → GoError ⊎ Text
  pub verify_token : Time → Text → GoError ⊎ Claims

-- A call returns, or it panics: `NewAuthService` leaves the field `logger` nil, and a method of a
-- nil *slog.Logger dereferences it.
pub data Outcome (A : Type 0) : Type 0 where
  returned : GoError ⊎ A → Outcome A
  panicked : Outcome A

module _ {S B : Type 0} (deps : Deps S B) (hasher : Hasher) where
  -- The user that Register hands to the user service.
  abbrev pub registered : Auth → Text → User
  registered auth pwd = record zero_user {
    email = auth.email;
    phone_number = auth.phone_number;
    password = pwd;
    role = role_normal;
  }

  abbrev only_error : {W : Type 0} → (GoError ⊎ User) × W → Outcome (Unit {0}) × W
  only_error (inl err, w) = (returned (inl err), w)
  only_error (inr _, w) = (returned (inr tt), w)

  unfoldable pub register :
      Uuid → Time → Auth → World S B User → Outcome (Unit {0}) × World S B User
  register id now auth w = elim (hasher.hash auth.password) [
    | inl err ↦ (panicked, w)
    | inr pwd ↦ only_error (Users.create deps id now (registered auth pwd) w)
  ]

  module _ (manager : Manager) where
    abbrev compared : Option GoError → User → Time → Outcome Text
    compared (some err) user now =
        if is_error err mismatched_hash_and_password
        then returned (inl (not_found_error deps.frame (txt "user by given credentials")))
        else panicked
    compared none user now = elim (manager.create_token now user.id user.role) [
      | inl err ↦ panicked
      | inr token ↦ returned (inr token)
    ]

    abbrev logged_in :
        Auth → Time → (GoError ⊎ User) × World S B User → Outcome Text × World S B User
    logged_in auth now (inl err, w) = (returned (inl err), w)
    logged_in auth now (inr user, w) =
        if user.status == status_banned
        then (
          returned (inl (new deps.frame (text_error (txt "user banned")) code_forbidden_access [])),
          w,
        )
        else (compared (hasher.compare user.password auth.password) user now, w)

    unfoldable pub login : Time → Auth → World S B User → Outcome Text × World S B User
    login now auth w = logged_in auth now (Users.get_by_email deps now auth.email w)
