-- ===== src/Handler/Effects.antt =====
-- The user that the handler `create` makes, and its login.
use clean_architect.Cache
use clean_architect.Domain.{User, Time}
use clean_architect.Errs.{GoError, is_error, mismatched_hash_and_password}
use clean_architect.Http.{fresh}
use clean_architect.Jsonutil.{decode_and_validate}
use clean_architect.Service.Users.{Deps, created}
use clean_architect.Service.Credentials.{Hasher, Manager, panicked, login}
use clean_architect.Handler.{UserRequest, Request, Outside, to_domain, create}
use clean_architect.Synq.{World, set_async, get_async}
use clean_architect.Common.{◌≡◌, inl, inr, false, some, [], arith, nat_eq, text_eq}
use clean_architect.Service.Users

module _ {S B : Type 0} (out : Outside) (deps : Deps S B) where
  -- The user that `create` hands to the service for a valid request.
  abbrev pub posted : UserRequest → User
  posted req = created out.new_id out.now (to_domain req)

  -- A user that is made by `create` is stored with the password of the request itself, not a hash of
  -- it. If the database stores that user and finds it again by its email, which the cache does not
  -- hold, and the hasher says of the stored text that it is no hash, then a login of that user with
  -- that very password panics.
  pub create_then_login :
      (hasher : Hasher) (manager : Manager) (r : Request) (req : UserRequest) (later : Time)
      (s : World S B User) (err miss : GoError)
      → decode_and_validate deps.frame out.validate_user r.user_request ≡ inr req
      → (deps.db.create (posted req) s.db).0 ≡ inr tt
      → (deps.db.get_by_email req.email (deps.db.create (posted req) s.db).1).0 ≡ inr (posted req)
      → (Cache.get deps.driver deps.gob later req.email s.store).0 ≡ inl miss
      → hasher.compare req.password req.password ≡ some err
      → is_error err mismatched_hash_and_password ≡ false
      → (login deps hasher manager later
          (record { email = req.email; phone_number = []; password = req.password })
          (create out deps r fresh s).1).0
        ≡ panicked
  unfolding create login Users.create Users.get_by_email set_async get_async to_domain
  create_then_login hasher manager r req later s err miss decoded stored found missed bad kind =
      ground arith
