-- ===== src/Repository/Memory.antt =====
-- internal/repository/user/memory.go: users in a map by id. A map is visited in the order of the
-- association list. Create, Delete and Update lock twice: GetByID reads under the lock and releases it,
-- and a second section, which has a name here, writes. `create`, `delete` and `update` are the calls
-- in which no other method runs between the two.
pub mod Laws
pub mod Races
use clean_architect.Cache.{Action}
use clean_architect.Domain.{Uuid, User, zero_user, status_deleted}
use clean_architect.Errs.{GoError, sentinel, user_already_exists, user_not_found}
use clean_architect.Paginate.{Pagination}
use clean_architect.Common.{
  ◌⊎◌, inl, inr, Bool, true, false, Option, none, some, List, [], ◌∷◌, map, if◌then◌else◌, ◌==◌,
  nat_eq, Text, text_eq, Dict, lookup, insert,
}

abbrev pub Store : Type 0
Store = Dict Uuid User

-- What GetByID returns beside its error: the zero user where the id is absent.
unfoldable pub found_user : Uuid → Store → User × Bool
unfolding lookup
found_user id store = elim (lookup id store) [ none ↦ (zero_user, false) | some u ↦ (u, true) ]

unfoldable pub get_by_id : Uuid → Action Store User
unfolding lookup
get_by_id id store = elim (lookup id store) [
  | none ↦ (inl (sentinel user_not_found), store)
  | some user ↦ (inr user, store)
]

-- The second section of Create. `user, err := r.GetByID(…)` assigns to the parameter `user`, since
-- the parameters and the body are one scope.
unfoldable pub create_write : User × Bool → Action Store (Unit {0})
unfolding insert
create_write (user, true) store = (inl (sentinel user_already_exists), store)
create_write (user, false) store = (inr tt, insert user.id user store)

unfoldable pub create : User → Action Store (Unit {0})
unfolding found_user create_write
create user store = create_write (found_user user.id store) store

unfoldable pub first_with_email : Text → Store → Option User
first_with_email email [] = none
first_with_email email ((id, u) ∷ store) =
    if u.email == email then some u else first_with_email email store

unfoldable pub get_by_email : Text → Action Store User
unfolding first_with_email
get_by_email email store = elim (first_with_email email store) [
  | none ↦ (inl (sentinel user_not_found), store)
  | some u ↦ (inr u, store)
]

unfoldable pub list : Pagination → Store → (GoError ⊎ List User) × Pagination × Store
list pagination store = (inr (map (λ e. e.1) store), pagination, store)

-- The second section of Delete, for what GetByID has returned.
unfoldable pub delete_write : Uuid → GoError ⊎ User → Action Store (Unit {0})
unfolding insert
delete_write id (inl err) store = (inl err, store)
delete_write id (inr user) store =
    (inr tt, insert id (record user { status = status_deleted }) store)

unfoldable pub delete : Uuid → Action Store (Unit {0})
unfolding get_by_id delete_write
delete id store = delete_write id (get_by_id id store).0 store

-- The four fields that an update copies.
abbrev pub updated : User → User → User
updated u user = record u {
  name = user.name;
  phone_number = user.phone_number;
  email = user.email;
  password = user.password;
}

-- The second section of Update, for what GetByID has returned.
unfoldable pub update_write : User → GoError ⊎ User → Action Store (Unit {0})
unfolding insert
update_write user (inl err) store = (inl err, store)
update_write user (inr u) store = (inr tt, insert user.id (updated u user) store)

unfoldable pub update : User → Action Store (Unit {0})
unfolding get_by_id update_write
update user store = update_write user (get_by_id user.id store).0 store
