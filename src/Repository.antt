-- ===== src/Repository.antt =====
-- internal/repository/repository.go: what the services ask of a store of users.
pub mod Memory
pub mod Sql
pub mod Mongo
use clean_architect.Cache.{Action}
use clean_architect.Domain.{Uuid, User}
use clean_architect.Errs.{GoError}
use clean_architect.Paginate.{Pagination}
use clean_architect.Common.{◌⊎◌, List, nat_eq, Text, text_eq}

-- The interface `User` over a database state `B`. `list` also returns the pagination that it leaves
-- behind its pointer.
pub record UserRepository (B : Type 0) : Type 0 where
  pub create : User → Action B (Unit {0})
  pub get_by_id : Uuid → Action B User
  pub get_by_email : Text → Action B User
  pub list : Pagination → B → (GoError ⊎ List User) × Pagination × B
  pub delete : Uuid → Action B (Unit {0})
  pub update : User → Action B (Unit {0})
