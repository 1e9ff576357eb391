-- ===== src/Handler/Routes.antt =====
-- api/http/handler/v2/user.go: the routes of the users, behind the check of the role.
pub mod Roles
use clean_architect.Domain.{User, UserRole, Time, role_admin}
use clean_architect.Errs.{GoError}
use clean_architect.Handler.{Request, Outside, Body, list, create, get, delete, update}
use clean_architect.Http.{Handler}
use clean_architect.Middleware.{must_have_at_least_one_role}
use clean_architect.Service.Credentials.{Manager}
use clean_architect.Service.Users.{Deps}
use clean_architect.Synq.{World}
use clean_architect.Common.{◌⊎◌, [], ◌∷◌, nat_eq, Text, text_eq}

-- The methods on /v2/users and on /v2/users/{id}.
pub data UserRoute : Type 0 where
  get_users post_users get_user delete_user put_user : UserRoute

module _ {S B : Type 0} (out : Outside) (deps : Deps S B) where
  -- The handler of a route; the compression of the list's response is left out.
  unfoldable pub user_action : UserRoute → Handler Request Body (World S B User)
  unfolding list create get delete update
  user_action get_users r w s = list out deps r w s
  user_action post_users r w s = create out deps r w s
  user_action get_user r w s = get out deps r w s
  user_action delete_user r w s = delete out deps r w s
  user_action put_user r w s = update out deps r w s

  -- UserRoutes: every route has the middleware of the group.
  unfoldable pub user_routes :
      (Request → GoError ⊎ Text)
      → Manager
      → Time
      → UserRoute
      → Handler Request Body (World S B User)
  unfolding user_action must_have_at_least_one_role
  user_routes extract_token manager now route r w s =
      must_have_at_least_one_role extract_token manager now (role_admin ∷ []) (user_action route) r
        w s
