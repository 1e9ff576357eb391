-- ===== src/Handler/Routes/Roles.antt =====
-- Which tokens open the routes of the users.
use mathlib.Core.List.{Memᴰ}
use clean_architect.Cache.{Duration}
use clean_architect.Domain.{User, Uuid, Time, role_admin}
use clean_architect.Errs.{GoError}
use clean_architect.Handler.{Request, Outside}
use clean_architect.Handler.Routes.{UserRoute, user_action, user_routes}
use clean_architect.Http.{fresh}
use clean_architect.Middleware.Access.{IsGranted, IsDenial, granted_passes, denied_stops}
use clean_architect.Service.Credentials.{Manager}
use clean_architect.Service.Users.{Deps}
use clean_architect.Synq.{World}
use clean_architect.Tokens.{add_duration}
use clean_architect.Tokens.Lifetime.{IsTimed, one_second}
use clean_architect.Common.{
  ◌+◌, ◌≤◌, ◌≡◌, sym, ap, ◌∙◌, ◌≢◌, ◌⊎◌, inl, inr, false, [], ◌∷◌, arith, Bool-cases, ◌==◌, nat_eq,
  Text, text_beq_iff, text_eq,
}

-- What one call gives is one value.
right_same : {A B : Type 0} {p : A ⊎ B} {c d : B} → p ≡ inr c → p ≡ inr d → c ≡ d
right_same e f = cc

only_member : (r role : Text) → Memᴰ r (role ∷ []) → r ≡ role
only_member r role (Memᴰ.head e) = e
only_member r role (Memᴰ.tail m) = elim m [ ]

differs_of : (r role : Text) → (r == role) ≡ false → r ≢ role
differs_of r role e same = absurd (ground (arith, e, (text_beq_iff r role).1 same))

module _ {S B : Type 0} (out : Outside) (deps : Deps S B) (manager : Manager) (duration : Duration)
    (timed : IsTimed manager duration) (extract_token : Request → GoError ⊎ Text) where
  other_role-IsGranted :
      (later : Time) (id : Uuid) (role token : Text) (r : Request)
      → extract_token r ≡ inr token
      → manager.verify_token later token ≡ inr (record { user_id = id; user_role = role })
      → role ≢ role_admin
      → ¬ IsGranted extract_token manager later (role_admin ∷ []) r
  other_role-IsGranted later id role token r carried verified differs
        (t, claims, found, accepted, m) =
      let same_token = right_same found carried in
      let same_claims = right_same (rw same_token at accepted) verified in
      differs (ap (λ c. c.user_role) (sym same_claims) ∙ only_member claims.user_role role_admin m)

  -- A token that the manager made for a user and a role, carried by a request a second or more before
  -- it is as old as the duration: for the role `Admin` each of the five routes of the users runs its
  -- handler as if the check were not there; for any other role it leaves the program's state as it
  -- was and answers with 401, 400 or 403.
  pub user_routes-roles :
      (made later : Time) (id : Uuid) (role token : Text) (route : UserRoute) (r : Request)
      (s : World S B User)
      → manager.create_token made id role ≡ inr token
      → extract_token r ≡ inr token
      → later + one_second ≤ add_duration made duration
      → ((role ≡ role_admin)
          × (user_routes out deps extract_token manager later route r fresh s
              ≡ user_action out deps route r fresh s))
        ⊎ ((role ≢ role_admin)
            × ((user_routes out deps extract_token manager later route r fresh s).1 ≡ s)
            × IsDenial (user_routes out deps extract_token manager later route r fresh s).0.status)
  unfolding user_routes
  user_routes-roles made later id role token route r s created carried early =
      let verified = timed.accepts made later id role token created early in
      elim (Bool-cases (role == role_admin)) [
        | inl e ↦
            let same = (text_beq_iff role role_admin).0 e in
            inl (
              same,
              granted_passes extract_token manager later (role_admin ∷ [])
                  (user_action out deps route) r fresh s
                  (
                    token,
                    record { user_id = id; user_role = role },
                    carried,
                    verified,
                    Memᴰ.head same,
                  ),
            )
        | inr e ↦
            let differs = differs_of role role_admin e in
            let (kept, denied) =
              denied_stops extract_token manager later (role_admin ∷ [])
                (user_action out deps route) r s
                (other_role-IsGranted later id role token r carried verified differs) in
            inr (differs, kept, denied)
      ]
