-- ===== src/Service/Users.antt =====
-- internal/service/user.go
pub mod Laws
use clean_architect.Common.Int.{pos}
use clean_architect.Cache.{Duration, Driver, Codec}
use clean_architect.Domain.{Uuid, User, Time, status_new}
use clean_architect.Errs.{
  GoError, new, not_found_error, is_error, user_already_exists, user_not_found, code_existed,
  code_internal,
}
use clean_architect.Paginate.{Pagination}
use clean_architect.Repository.{UserRepository}
use clean_architect.Synq.{World, Method}
use clean_architect.Common.{
  ℕ, ◌⊎◌, inl, inr, Option, List, [], if◌then◌else◌, nat_eq, Text, txt, text_eq,
}
use clean_architect.Synq

abbrev pub hour : Duration
hour = pos 3_600_000_000_000

abbrev pub minute : Duration
minute = pos 60_000_000_000

-- The service's collaborators: the cache's driver, gob at users, the repository, the text form of an
-- id, and the frame that runtime.Caller finds.
pub record Deps (S B : Type 0) : Type 0 where
  pub driver : Driver S
  pub gob : Codec User
  pub db : UserRepository B
  pub uuid_string : Uuid → Text
  pub frame : Option (Text × ℕ)

module _ {S B : Type 0} (deps : Deps S B) where
  -- The two ways in which the methods translate an error of the database; logging is left out.
  unfoldable pub create_error : GoError → GoError
  create_error err =
      if is_error err user_already_exists
      then new deps.frame err code_existed []
      else new deps.frame err code_internal []

  unfoldable pub lookup_error : GoError → GoError
  lookup_error err =
      if is_error err user_not_found
      then not_found_error deps.frame (txt "user")
      else new deps.frame err code_internal []

abbrev translated : {A W : Type 0} → (GoError → GoError) → (GoError ⊎ A) × W → (GoError ⊎ A) × W
translated f (inl err, w) = (inl (f err), w)
translated f (inr a, w) = (inr a, w)

abbrev returning : {A W : Type 0} → A → (GoError ⊎ (Unit {0})) × W → (GoError ⊎ A) × W
returning a (inl err, w) = (inl err, w)
returning a (inr _, w) = (inr a, w)

-- The user that Create stores: `id` is uuid.New() and `now` is time.Now().
abbrev pub created : Uuid → Time → User → User
created id now user = record user { id = id; status = status_new; created_at = now }

module _ {S B : Type 0} (deps : Deps S B) where
  unfoldable pub create : Uuid → Time → User → Method S B User User
  unfolding create_error
  create id now user w =
      let user' = created id now user in
      returning user' (
        translated (create_error deps) (
          Synq.set_async deps.driver deps.gob (deps.uuid_string id) user' (deps.db.create user')
            hour w))

  unfoldable pub get_by_email : Time → Text → Method S B User User
  unfolding lookup_error
  get_by_email now email w =
      translated (lookup_error deps)
        (Synq.get_async deps.driver deps.gob now email (deps.db.get_by_email email) minute w)

  unfoldable pub get_by_id : Time → Uuid → Method S B User User
  unfolding lookup_error
  get_by_id now id w = translated (lookup_error deps) (
      Synq.get_async deps.driver deps.gob now (deps.uuid_string id) (deps.db.get_by_id id) minute w)

  unfoldable pub delete : Uuid → Method S B User (Unit {0})
  unfolding lookup_error
  delete id w =
      translated (lookup_error deps)
        (Synq.delete_async deps.driver deps.gob (deps.uuid_string id) (deps.db.delete id) w)

  unfoldable pub update : User → Method S B User (Unit {0})
  unfolding lookup_error
  update user w = translated (lookup_error deps) (
      Synq.set_async deps.driver deps.gob (deps.uuid_string user.id) user (deps.db.update user)
        minute w)

  abbrev listed :
      (GoError ⊎ List User) × Pagination × B
      → World S B User
      → (GoError ⊎ List User) × Pagination × World S B User
  listed (inl err, p, b) w = (inl (new deps.frame err code_internal []), p, record w { db = b })
  listed (inr users, p, b) w = (inr users, p, record w { db = b })

  unfoldable pub list :
      Pagination → World S B User → (GoError ⊎ List User) × Pagination × World S B User
  list pagination w = listed (deps.db.list pagination w.db) w
