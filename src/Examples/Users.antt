-- ===== src/Examples/Users.antt =====
-- The repository in memory and the two services.
use clean_architect.Domain.{status_deleted, User, status_banned}
use clean_architect.Repository.Memory.{Store, updated}
use clean_architect.Common.Int.{pos}
use clean_architect.Paginate.{Pagination}
use clean_architect.Repository.Memory.Races.{update_undoes_delete}
use clean_architect.Service.Users.{minute, hour, created, create_error}
use clean_architect.Service.Users.Laws.{FailsPublicly, Creates, errors-IsPublic, create_lem}
use clean_architect.Service.Credentials.{returned, panicked, login}
use clean_architect.Service.Credentials.Laws.{Grants, login_iff, Breaks, login-panicked_iff}
use clean_architect.Synq.{World, set_task, drain}
use clean_architect.Examples.{alice, deps, users, world, hasher, manager, credentials}
use clean_architect.Common.{
  ◌≡◌, refl, ◌≢◌, ◌↔◌, inr, [], ◌∷◌, nat_eq, txt, text_beq, text_eq, lookup,
}
use clean_architect.Cache.InMemory
use clean_architect.Repository.Memory
use clean_architect.Service.Users

abbrev renamed : User
renamed = record alice { name = txt "alicia"; status = 0 }

abbrev bob : User
bob = record alice { id = 2; email = txt "b@x.org" }

update_undoes_delete_example :
    let read = (Memory.get_by_id 1 users).0 in
    let (gone, store') = Memory.delete 1 users in
    let (done, store'') = Memory.update_write alice read store' in
    (gone ≡ inr tt)
    × ((Memory.get_by_id 1 store').0 ≡ inr (record alice { status = status_deleted }))
    × (done ≡ inr tt)
    × ((Memory.get_by_id 1 store'').0 ≡ inr (updated alice alice))
unfolding lookup
update_undoes_delete_example = update_undoes_delete alice alice users refl

abbrev page : Pagination
page = record {
  page = pos 1;
  per_page = pos 10;
  fields = [];
  sort = [];
  filters = [];
  total_items = pos 0;
}

errors-IsPublic_example :
    FailsPublicly deps (Users.get_by_email deps 5 (txt "b@x.org") world).0
    × FailsPublicly deps (Users.get_by_id deps 5 2 world).0
    × FailsPublicly deps (Users.delete deps 2 world).0
    × FailsPublicly deps (Users.update deps bob world).0
    × FailsPublicly deps (Users.list deps page world).0
errors-IsPublic_example = errors-IsPublic deps 5 (txt "b@x.org") 2 bob page world

create_lem_example :
    ((Users.create deps 2 9 bob world).1.db ≡ (deps.db.create (created 2 9 bob) users).1)
    × Creates deps 2 9 bob world (deps.db.create (created 2 9 bob) users).0
create_lem_example = create_lem deps 2 9 bob world

login_iff_example :
    ((login deps hasher manager 5 credentials world).0 ≡ returned (inr (txt "User")))
    ↔ ((u : User) × Grants deps hasher manager 5 credentials world (txt "User") u)
login_iff_example = login_iff deps hasher manager 5 credentials world (txt "User")

-- A stored text that is no hash.
abbrev clear : World InMemory.Store Store User
clear = record world { db = (1, record alice { password = txt "secret" }) ∷ [] }

login-panicked_iff_example : ((login deps hasher manager 5 credentials clear).0 ≡ panicked) ↔ (
    ((record alice { password = txt "secret" }).status ≢ status_banned)
    × Breaks deps hasher manager 5 credentials (record alice { password = txt "secret" }))
unfolding Users.get_by_email Memory.get_by_email clean_architect.Synq.get_async
    clean_architect.Cache.get InMemory.get text_beq
login-panicked_iff_example =
    login-panicked_iff deps hasher manager 5 credentials clear
      (record alice { password = txt "secret" }) refl

abbrev empty : World InMemory.Store Store User
empty = record { store = []; db = []; pending = [] }
