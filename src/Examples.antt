-- ===== src/Examples.antt =====
-- Concrete users, stores and collaborators at which the children apply the theorems.
mod Queries
mod Caching
mod Users
mod Web
mod Tasks
mod Storages
mod Setup
mod Refining
mod Program
mod Sessions
mod Records
mod Compression
use clean_architect.Cache.{Codec}
use clean_architect.Domain.{User, Auth, status_active, role_normal}
use clean_architect.Errs.{GoError, sentinel, text_error, mismatched_hash_and_password}
use clean_architect.Repository.{UserRepository}
use clean_architect.Service.Users.{Deps}
use clean_architect.Service.Credentials.{Hasher, Manager}
use clean_architect.Synq.{World}
use clean_architect.Common.{
  inr, none, some, [], ◌∷◌, ◌++◌, if◌then◌else◌, ◌==◌, nat_eq, txt, text_eq, contains_byte, decimal,
  insert,
}
use clean_architect.Cache.InMemory
use clean_architect.Repository.Memory

abbrev pub alice : User
alice = record {
  id = 1;
  name = txt "alice";
  phone_number = txt "+31";
  email = txt "a@x.org";
  password = txt "secret#";
  status = status_active;
  role = role_normal;
  created_at = 5;
}

-- A codec that keeps the name and knows the one user of that name.
abbrev pub gob : Codec User
gob = record { encode = λ u. inr u.name; decode = λ b. inr alice }

-- A repository that does store the user that it is given.
abbrev pub repo : UserRepository Memory.Store
repo = record {
  create = λ u s. (inr tt, insert u.id u s);
  get_by_id = Memory.get_by_id;
  get_by_email = Memory.get_by_email;
  list = Memory.list;
  delete = Memory.delete;
  update = Memory.update;
}

abbrev pub deps : Deps InMemory.Store Memory.Store
deps = record {
  driver = InMemory.driver;
  gob = gob;
  db = repo;
  uuid_string = decimal;
  frame = none;
}

abbrev pub users : Memory.Store
users = (1, alice) ∷ []

abbrev pub world : World InMemory.Store Memory.Store User
world = record { store = []; db = users; pending = [] }

-- A hash is the password with a mark behind it; another text is refused.
abbrev pub hasher : Hasher
hasher = record {
  hash = λ p. inr (p ++ txt "#");
  compare = λ h p.
      if h == p ++ txt "#"
      then none
      else some (
          if contains_byte h 35
          then sentinel mismatched_hash_and_password
          else text_error (txt "short"));
}

-- A token is the role.
abbrev pub manager : Manager
manager = record {
  create_token = λ now id role. inr role;
  verify_token = λ now token. inr (record { user_id = 1; user_role = token });
}

abbrev pub credentials : Auth
credentials = record { email = txt "a@x.org"; phone_number = txt "+31"; password = txt "secret" }
