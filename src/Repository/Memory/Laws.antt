-- ===== src/Repository/Memory/Laws.antt =====
-- What the methods do to each user.
use clean_architect.Domain.{Uuid, User, zero_user, status_deleted}
use clean_architect.Errs.{sentinel, user_already_exists, user_not_found}
use clean_architect.Repository.Memory.{Store, get_by_id, create, delete, updated, update}
use clean_architect.Common.{
  ◌≡◌, ◌≢◌, inl, inr, none, some, arith, if◌then◌else◌, ◌==◌, nat_eq, text_eq, lookup,
  lookup-insert,
}

-- Update of a present user: a read of its id then gives the stored user with the name, the phone
-- number, the email and the password of the argument, and with its own id, status, role and time of
-- creation; a read of any other id is not changed.
pub get_by_id-update :
    (user u : User) (j : Uuid) (store : Store)
    → lookup user.id store ≡ some u
    → ((update user store).0 ≡ inr tt)
      × ((get_by_id j (update user store).1).0
          ≡ (if user.id == j then inr (updated u user) else (get_by_id j store).0))
unfolding update get_by_id
get_by_id-update user u j store h = ground (arith, lookup-insert user.id j (updated u user) store)

-- Delete of a present user keeps it with the status `deleted`: a read of its id still succeeds, and
-- a read of any other id is not changed.
pub get_by_id-delete :
    (id j : Uuid) (u : User) (store : Store)
    → lookup id store ≡ some u
    → ((delete id store).0 ≡ inr tt)
      × ((get_by_id j (delete id store).1).0
          ≡ (if id == j then inr (record u { status = status_deleted }) else (get_by_id j store).0))
unfolding delete get_by_id
get_by_id-delete id j u store h =
    ground (arith, lookup-insert id j (record u { status = status_deleted }) store)

-- A read, a deletion and an update of an absent id, and a creation under a present id, fail with
-- their own error and change nothing.
pub absent_fails :
    (user : User) (store : Store)
    → (lookup user.id store ≡ none
        → (get_by_id user.id store ≡ (inl (sentinel user_not_found), store))
          × (delete user.id store ≡ (inl (sentinel user_not_found), store))
          × (update user store ≡ (inl (sentinel user_not_found), store)))
      × (lookup user.id store ≢ none
          → create user store ≡ (inl (sentinel user_already_exists), store))
unfolding get_by_id delete update create
absent_fails user store = ground arith

-- Create of an absent user with an id other than the zero id reports success, and stores the zero
-- user under the zero id in its place: the user is still absent.
pub create_loses_user :
    (user : User) (store : Store)
    → lookup user.id store ≡ none
    → user.id ≢ 0
    → ((create user store).0 ≡ inr tt)
      × (lookup 0 (create user store).1 ≡ some zero_user)
      × (lookup user.id (create user store).1 ≡ none)
unfolding create
create_loses_user user store h k =
    ground (arith, lookup-insert 0 0 zero_user store, lookup-insert 0 user.id zero_user store)
