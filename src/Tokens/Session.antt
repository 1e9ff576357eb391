-- ===== src/Tokens/Session.antt =====
-- A token from its login to the request that carries it.
use clean_architect.Domain.{Uuid, User, UserRole, Auth, Time}
use clean_architect.Cache.{Duration}
use clean_architect.Errs.{GoError}
use clean_architect.Http.{Response, Handler, fresh}
use clean_architect.Middleware.{must_have_at_least_one_role}
use clean_architect.Middleware.Access.{IsDenial, granted_passes, denied_stops}
use clean_architect.Service.Users.{Deps, created}
use clean_architect.Service.Credentials.{
  register, registered, Claims, Hasher, Manager, returned, login,
}
use clean_architect.Service.Credentials.Laws.{login_iff, login-register}
use clean_architect.Synq.{World}
use clean_architect.Tokens.{add_duration}
use clean_architect.Tokens.Lifetime.{IsTimed, one_second}
use mathlib.Core.Path.{subst}
use mathlib.Core.List.{Memᴰ}
use clean_architect.Common.{
  txt, none, ◌+◌, ◌≤◌, ◌<◌, ◌≡◌, ◌⊎◌, inl, inr, List, nat_eq, Text, text_eq,
}
use clean_architect.Cache
use clean_architect.Service.Users

inr_same : {A B : Type 0} {p : A ⊎ B} {x y : B} → p ≡ inr x → p ≡ inr y → x ≡ y
inr_same e f = cc

module _ {S B : Type 0} (deps : Deps S B) (hasher : Hasher) (manager : Manager)
    (duration : Duration) (timed : IsTimed manager duration) where
  -- The token of a login was made for the user that was found.
  made_for :
      (now : Time) (auth : Auth) (w : World S B User) (token : Text) (u : User)
      → (login deps hasher manager now auth w).0 ≡ returned (inr token)
      → (Users.get_by_email deps now auth.email w).0 ≡ inr u
      → manager.create_token now u.id u.role ≡ inr token
  made_for now auth w token u logged found =
      let (v, (same, free, fits, made)) =
        (login_iff deps hasher manager now auth w token).0 logged in
      subst (λ x. manager.create_token now x.id x.role ≡ inr token) (inr_same same found) made

  refused :
      {later : Time} {token t : Text} {claims : Claims}
      → ((err : GoError) × (manager.verify_token later token ≡ inl err))
      → t ≡ token
      → manager.verify_token later t ≡ inr claims
      → ⊥
  refused (err, e) same verified = cc

  module _ {R V W : Type 0} (extract_token : R → GoError ⊎ Text) (roles : List UserRole) where
    -- A login that returned a token for a user whose role is one of the roles: a request that
    -- carries the token a second or more before it is as old as the manager's duration reaches the
    -- handler as if the middleware were not there.
    pub session_passes :
        (now later : Time) (auth : Auth) (w : World S B User) (token : Text) (u : User)
        (next : Handler R V W) (r : R) (res : Response V) (s : W)
        → (login deps hasher manager now auth w).0 ≡ returned (inr token)
        → (Users.get_by_email deps now auth.email w).0 ≡ inr u
        → Memᴰ u.role roles
        → extract_token r ≡ inr token
        → later + one_second ≤ add_duration now duration
        → must_have_at_least_one_role extract_token manager later roles next r res s ≡ next r res s
    session_passes now later auth w token u next r res s logged found m carried early =
        let verified =
          timed.accepts now later u.id u.role token (made_for now auth w token u logged found)
            early in
        granted_passes extract_token manager later roles next r res s
          (token, record { user_id = u.id; user_role = u.role }, carried, verified, m)

    -- Once the token of a login is older than the manager's duration, the request that carries it
    -- never reaches the handler: the state is as before and the answer is 401, 400 or 403.
    pub session_ends :
        (now later : Time) (auth : Auth) (w : World S B User) (token : Text) (u : User)
        (next : Handler R V W) (r : R) (s : W)
        → (login deps hasher manager now auth w).0 ≡ returned (inr token)
        → (Users.get_by_email deps now auth.email w).0 ≡ inr u
        → extract_token r ≡ inr token
        → add_duration now duration < later
        → ((must_have_at_least_one_role extract_token manager later roles next r fresh s).1 ≡ s)
          × IsDenial
              (must_have_at_least_one_role extract_token manager later roles next r fresh
                s).0.status
    session_ends now later auth w token u next r s logged found carried late =
        let (err, e) =
          timed.expires now later u.id u.role token (made_for now auth w token u logged found)
            late in
        denied_stops extract_token manager later roles next r s (λ (t, claims, same, verified, m).
          refused
            (timed.expires now later u.id u.role token (made_for now auth w token u logged found)
              late)
            (inr_same same carried) verified)

    -- From the registration to a protected handler: after a registration whose hash is made, if the
    -- database stores the user and finds it again by its email, which the cache does not hold, and the
    -- hasher accepts its own hash: a login with the same credentials gives the token that the manager
    -- makes for the new id and the role `User`; and a request that carries it a second or more before
    -- it is as old as the duration reaches any handler that asks for that role, among others.
    pub registered_session :
        (id : Uuid) (now later at : Time) (auth : Auth) (w : World S B User) (pwd token : Text)
        (miss : GoError) (next : Handler R V W) (r : R) (res : Response V) (s : W)
        → hasher.hash auth.password ≡ inr pwd
        → hasher.compare pwd auth.password ≡ none
        → manager.create_token later id (txt "User") ≡ inr token
        → (deps.db.create (created id now (registered deps hasher auth pwd)) w.db).0 ≡ inr tt
        → (deps.db.get_by_email auth.email
            (deps.db.create (created id now (registered deps hasher auth pwd)) w.db).1).0
          ≡ inr (created id now (registered deps hasher auth pwd))
        → (Cache.get deps.driver deps.gob later auth.email w.store).0 ≡ inl miss
        → extract_token r ≡ inr token
        → Memᴰ (txt "User") roles
        → at + one_second ≤ add_duration later duration
        → ((login deps hasher manager later auth (register deps hasher id now auth w).1).0
            ≡ returned (inr token))
          × (must_have_at_least_one_role extract_token manager at roles next r res s ≡ next r res s)
    registered_session id now later at auth w pwd token miss next r res s hashed fits made stored
          found missed carried m early =
        (
          login-register deps hasher manager id now later auth w pwd token miss hashed fits made
              stored found missed,
          granted_passes extract_token manager at roles next r res s (
            token,
            record { user_id = id; user_role = txt "User" },
            carried,
            timed.accepts later at id (txt "User") token made early,
            m,
          ),
        )
