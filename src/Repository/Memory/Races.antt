-- ===== src/Repository/Memory/Races.antt =====
-- A method that runs between the two sections of another.
use clean_architect.Domain.{User, status_deleted}
use clean_architect.Repository.Memory.{Store, get_by_id, delete, updated, update_write}
use clean_architect.Common.{◌≡◌, inr, some, arith, nat_eq, lookup, insert, lookup-insert, beq_refl}

-- Where Delete runs as a whole between the two sections of an Update of the same present user: both
-- report success, after the Delete the user has the status `deleted`, and after the Update it is
-- there again with the status that it had before, and the four fields of the argument.
pub update_undoes_delete :
    (user u : User) (store : Store)
    → lookup user.id store ≡ some u
    → let read = (get_by_id user.id store).0 in
      let (gone, store') = delete user.id store in
      let (done, store'') = update_write user read store' in
      (gone ≡ inr tt)
      × ((get_by_id user.id store').0 ≡ inr (record u { status = status_deleted }))
      × (done ≡ inr tt)
      × ((get_by_id user.id store'').0 ≡ inr (updated u user))
unfolding get_by_id delete update_write
update_undoes_delete user u store h =
    let deleted : User = record u { status = status_deleted } in
    let store' = insert user.id deleted store in
    ground (
      arith,
      beq_refl user.id,
      lookup-insert user.id user.id deleted store,
      lookup-insert user.id user.id (updated u user) store',
    )
