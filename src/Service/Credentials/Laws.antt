-- ===== src/Service/Credentials/Laws.antt =====
-- Who can log in, and what a registration leads to.
use clean_architect.Cache
use clean_architect.Domain.{Uuid, User, Auth, Time, status_banned}
use clean_architect.Errs.{GoError, is_error, mismatched_hash_and_password}
use clean_architect.Service.Users.{Deps, created}
use clean_architect.Service.Credentials.{
  Hasher, Manager, returned, panicked, registered, register, logged_in, login,
}
use clean_architect.Synq.{World, get_async, set_async}
use clean_architect.Common.{
  ◌≡◌, refl, ◌≢◌, ◌↔◌, ◌⊎◌, inl, inr, false, none, some, arith, Option-cases, Sum-cases, nat_eq,
  Text, txt, text_eq,
}
use clean_architect.Service.Users

module _ {S B : Type 0} (deps : Deps S B) (hasher : Hasher) (manager : Manager) where
  -- What a token stands for: the user that was found, who is not banned, whose stored hash fits the
  -- password, and for whom the manager made the token.
  abbrev pub Grants : Time → Auth → World S B User → Text → User → Type 0
  Grants now auth w token u =
      ((Users.get_by_email deps now auth.email w).0 ≡ inr u)
      × (u.status ≢ status_banned)
      × (hasher.compare u.password auth.password ≡ none)
      × (manager.create_token now u.id u.role ≡ inr token)

  granted_of :
      (now : Time) (auth : Auth) (token : Text) (p : (GoError ⊎ User) × World S B User)
      → (logged_in deps hasher manager auth now p).0 ≡ returned (inr token)
      → (u : User) × (p.0 ≡ inr u)
        × (u.status ≢ status_banned)
        × (hasher.compare u.password auth.password ≡ none)
        × (manager.create_token now u.id u.role ≡ inr token)
  granted_of now auth token (inl err, w) e = cc
  granted_of now auth token (inr u, w) e = (u, refl, ground arith, ground arith, ground arith)

  -- Login returns a token exactly if the user of the email is found and not banned, the password
  -- fits and the manager makes that token for the user's id and role. The other statuses, `deleted`
  -- among them, make no difference.
  pub login_iff :
      (now : Time) (auth : Auth) (w : World S B User) (token : Text)
      → ((login deps hasher manager now auth w).0 ≡ returned (inr token))
        ↔ ((u : User) × Grants now auth w token u)
  unfolding login
  login_iff now auth w token = (
    λ e.
        let (u, found, free, fits, made) =
          granted_of now auth token (Users.get_by_email deps now auth.email w) e in
        (u, (found, free, fits, made)),
    λ (u, g). let (found, free, fits, made) = g in ground arith,
  )

  -- What makes the service call its nil logger for the user `u`.
  abbrev pub Breaks : Time → Auth → User → Type 0
  Breaks now auth u =
      ((err : GoError) × (hasher.compare u.password auth.password ≡ some err)
        × (is_error err mismatched_hash_and_password ≡ false))
      ⊎ ((err : GoError) × (hasher.compare u.password auth.password ≡ none)
          × (manager.create_token now u.id u.role ≡ inl err))

  why_panicked :
      (now : Time) (auth : Auth) (w : World S B User) (u : User)
      → (logged_in deps hasher manager auth now (inr u, w)).0 ≡ panicked
      → (u.status ≢ status_banned) × Breaks now auth u
  why_panicked now auth w u e = (
    ground arith,
    elim (Option-cases (hasher.compare u.password auth.password)) [
      | inr (err, c) ↦ inl (err, c, ground arith)
      | inl c ↦ elim (Sum-cases (manager.create_token now u.id u.role)) [
        | inl (err, m) ↦ inr (err, c, m)
        | inr (token, m) ↦ absurd (ground arith)
      ]
    ],
  )

  breaking :
      (now : Time) (auth : Auth) (w : World S B User) (u : User)
      → u.status ≢ status_banned
      → Breaks now auth u
      → (logged_in deps hasher manager auth now (inr u, w)).0 ≡ panicked
  breaking now auth w u free (inl (err, c, m)) = ground arith
  breaking now auth w u free (inr (err, c, m)) = ground arith

  login_found :
      (now : Time) (auth : Auth) (w : World S B User) (u : User)
      → (Users.get_by_email deps now auth.email w).0 ≡ inr u
      → login deps hasher manager now auth w
        ≡ logged_in deps hasher manager auth now
            (inr u, (Users.get_by_email deps now auth.email w).1)
  unfolding login
  login_found now auth w u found = ground arith

  -- For a user that is found, Login panics, through the nil logger, exactly if the user is not
  -- banned, and either the comparison fails with an error other than a mismatch, or the password
  -- fits and the manager makes no token.
  pub login-panicked_iff :
      (now : Time) (auth : Auth) (w : World S B User) (u : User)
      → (Users.get_by_email deps now auth.email w).0 ≡ inr u
      → ((login deps hasher manager now auth w).0 ≡ panicked)
        ↔ ((u.status ≢ status_banned) × Breaks now auth u)
  login-panicked_iff now auth w u found = rw (login_found now auth w u found) (
    why_panicked now auth (Users.get_by_email deps now auth.email w).1 u,
    λ (free, b). breaking now auth (Users.get_by_email deps now auth.email w).1 u free b,
  )

  -- After a registration whose hash is made and whose user the database stores and finds again by
  -- its email, a login with the same credentials gives the manager's token, if the hasher accepts
  -- its own hash and the cache holds nothing under the email.
  pub login-register :
      (id : Uuid) (now later : Time) (auth : Auth) (w : World S B User) (pwd token : Text)
      (miss : GoError)
      → hasher.hash auth.password ≡ inr pwd
      → hasher.compare pwd auth.password ≡ none
      → manager.create_token later id (txt "User") ≡ inr token
      → (deps.db.create (created id now (registered deps hasher auth pwd)) w.db).0 ≡ inr tt
      → (deps.db.get_by_email auth.email
          (deps.db.create (created id now (registered deps hasher auth pwd)) w.db).1).0
        ≡ inr (created id now (registered deps hasher auth pwd))
      → (Cache.get deps.driver deps.gob later auth.email w.store).0 ≡ inl miss
      → (login deps hasher manager later auth (register deps hasher id now auth w).1).0
        ≡ returned (inr token)
  unfolding login register Users.create Users.get_by_email set_async get_async
  login-register id now later auth w pwd token miss hashed fits made stored found missed =
      ground arith
