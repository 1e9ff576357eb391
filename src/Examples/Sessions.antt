-- ===== src/Examples/Sessions.antt =====
-- Tokens, from their making to the request that carries them.
use clean_architect.Common.Int.{pos}
use clean_architect.Cache.{Duration}
use clean_architect.Domain.{Time, User, role_admin}
use clean_architect.Errs.{GoError, text_error, sentinel, cache_missed}
use clean_architect.Http.{Handler, fresh, write_header}
use clean_architect.Middleware.{must_have_at_least_one_role}
use clean_architect.Middleware.Access.{IsDenial}
use clean_architect.Service.Credentials.{login, register, returned}
use clean_architect.Tokens.{JwtClaims, JwtLibrary, JwtManager, jwt_manager}
use clean_architect.Tokens.Lifetime.{IsTimed, JwtLaws, jwt_manager-IsTimed}
use clean_architect.Tokens.Session.{session_ends, registered_session}
use clean_architect.Examples.{alice, deps, world, hasher, credentials}
use mathlib.Core.List.{Memᴰ}
use mathlib.Core.Path.{subst}
use clean_architect.Synq.{World}
use clean_architect.Examples.Web.{outside, request}
use clean_architect.Handler.{Request}
use clean_architect.Handler.Routes.{delete_user, user_action, user_routes}
use clean_architect.Handler.Routes.Roles.{user_routes-roles}
use clean_architect.Common.{
  ◌≢◌, text_beq, insert, contains_byte, ℕ, ◌+◌, ◌≤◌, ◌<◌, ◌≡◌, refl, ◌⊎◌, inl, inr, Bool, true,
  false, [], ◌∷◌, arith, ltb, nat_beq, nat_beq_iff, Sum-cases, nat_eq, Text, txt, text_eq, decimal,
}
use clean_architect.Cache.InMemory
use clean_architect.Repository.Memory

-- A token is the number of its method, its expiry, the user and the role.
abbrev signed : ℕ → JwtClaims → Text
signed m c = m ∷ c.expires_at ∷ c.claims.user_id ∷ c.claims.user_role

abbrev parsed_before : Bool → JwtClaims → GoError ⊎ Text → GoError ⊎ (JwtClaims × Bool)
parsed_before early c (inl err) = inl err
parsed_before true c (inr key) = inr (c, true)
parsed_before false c (inr key) = inl (text_error (txt "token is expired"))

abbrev parsed : Time → Text → (ℕ → GoError ⊎ Text) → GoError ⊎ (JwtClaims × Bool)
parsed now (m ∷ at ∷ id ∷ role) keys =
    parsed_before (ltb now at)
      (record { expires_at = at; claims = record { user_id = id; user_role = role } }) (keys m)
parsed now (m ∷ at ∷ []) keys = inl (text_error (txt "token is malformed"))
parsed now (m ∷ []) keys = inl (text_error (txt "token is malformed"))
parsed now [] keys = inl (text_error (txt "token is malformed"))

abbrev library : JwtLibrary ℕ
library = record {
  same_method = nat_beq;
  alg = λ m. decimal m;
  numeric_date = λ t. t;
  sign = λ m. λ c. λ key. inr (signed m c);
  parse = parsed;
  token_signature_invalid = text_error (txt "token signature is invalid");
  token_not_valid_yet = text_error (txt "token is not valid yet");
}

lt_ltb : (a b : ℕ) → a < b → ltb a b ≡ true
lt_ltb a b h = ground arith

le_ltb : (a b : ℕ) → b ≤ a → ltb a b ≡ false
le_ltb a b h = ground arith

signed_same : {t u : Text} → ◌≡◌ {A = GoError ⊎ Text} (inr t) (inr u) → t ≡ u
signed_same e = cc

parses_early :
    (m : ℕ) (c : JwtClaims) (key : Text) (now : Time) (keys : ℕ → GoError ⊎ Text)
    → keys m ≡ inr key
    → now < c.expires_at
    → parsed now (signed m c) keys ≡ inr (c, true)
parses_early m c key now keys e lt = rw e (rw (lt_ltb now c.expires_at lt) refl)

refuses_late :
    (m : ℕ) (c : JwtClaims) (now : Time) (keys : ℕ → GoError ⊎ Text)
    → c.expires_at ≤ now
    → (err : GoError) × (parsed now (signed m c) keys ≡ inl err)
refuses_late m c now keys le = elim (Sum-cases (keys m)) [
  | inl (err, e) ↦ (err, rw e refl)
  | inr (key, e) ↦
      (text_error (txt "token is expired"), rw e (rw (le_ltb now c.expires_at le) refl))
]

refuses_without :
    (m : ℕ) (c : JwtClaims) (now : Time) (keys : ℕ → GoError ⊎ Text) (err : GoError)
    → keys m ≡ inl err
    → parsed now (signed m c) keys ≡ inl err
refuses_without m c now keys err e = rw e refl

library-JwtLaws : JwtLaws library
library-JwtLaws = record {
  same_self = λ m. (nat_beq_iff m m).1 refl;
  date_before = λ t. omega arith;
  date_close = λ t. omega arith;
  parses = λ m. λ c. λ key. λ token. λ now. λ keys. λ e. λ k. λ lt.
      subst (λ t. parsed now t keys ≡ inr (c, true)) (signed_same e)
        (parses_early m c key now keys k lt);
  refuses_expired = λ m. λ c. λ key. λ token. λ now. λ keys. λ e. λ le.
      subst (λ t. (err : GoError) × (parsed now t keys ≡ inl err)) (signed_same e)
        (refuses_late m c now keys le);
  refuses_keyless = λ m. λ c. λ key. λ token. λ now. λ keys. λ err. λ e. λ k.
      subst (λ t. (other : GoError) × (parsed now t keys ≡ inl other)) (signed_same e)
        (err, refuses_without m c now keys err k);
}

abbrev jwt : JwtManager ℕ
jwt = record { signing_method = 512; key = txt "some_secret"; duration = pos 60_000_000_000 }

jwt_manager-IsTimed_example : IsTimed (jwt_manager library jwt) (pos 60_000_000_000)
jwt_manager-IsTimed_example = jwt_manager-IsTimed library library-JwtLaws jwt

abbrev token : Text
token = 512 ∷ 60_000_000_005 ∷ 1 ∷ txt "User"

abbrev bearer : Text → GoError ⊎ Text
bearer r = inr r

abbrev counted : Handler Text Text ℕ
counted r w n = (write_header 204 w, n + 1)

session_ends_example :
    ((must_have_at_least_one_role bearer
        (jwt_manager library jwt)
        70_000_000_000
        (txt "User" ∷ [])
        counted
        token
        fresh
        0).1
      ≡ 0)
    × IsDenial
        (must_have_at_least_one_role bearer
          (jwt_manager library jwt)
          70_000_000_000
          (txt "User" ∷ [])
          counted
          token
          fresh
          0).0.status
unfolding login clean_architect.Service.Users.get_by_email clean_architect.Synq.get_async
    clean_architect.Cache.get clean_architect.Cache.InMemory.get
    clean_architect.Repository.Memory.get_by_email text_beq clean_architect.Tokens.jwt_manager
    clean_architect.Tokens.jwt_create_token
session_ends_example =
    session_ends deps hasher (jwt_manager library jwt) (pos 60_000_000_000)
      (jwt_manager-IsTimed library library-JwtLaws jwt) bearer (txt "User" ∷ []) 5 70_000_000_000
      credentials world token alice counted token 0 refl refl refl (omega arith)

abbrev nobody : World InMemory.Store Memory.Store User
nobody = record { store = []; db = []; pending = [] }

abbrev new_token : Text
new_token = 512 ∷ 60_000_000_008 ∷ 7 ∷ txt "User"

registered_session_example :
    ((login deps hasher
        (jwt_manager library jwt)
        8
        credentials
        (register deps hasher 7 5 credentials nobody).1).0
      ≡ returned (inr new_token))
    × (must_have_at_least_one_role bearer
          (jwt_manager library jwt)
          9
          (txt "User" ∷ [])
          counted
          new_token
          fresh
          0
        ≡ counted new_token fresh 0)
unfolding Memory.get_by_email clean_architect.Cache.get InMemory.get text_beq insert contains_byte
    clean_architect.Tokens.jwt_manager clean_architect.Tokens.jwt_create_token
registered_session_example =
    registered_session deps hasher (jwt_manager library jwt) (pos 60_000_000_000)
      (jwt_manager-IsTimed library library-JwtLaws jwt) bearer (txt "User" ∷ []) 7 5 8 9 credentials
      nobody (txt "secret#") new_token (sentinel cache_missed) counted new_token fresh 0 refl refl
      refl refl refl refl refl (Memᴰ.head refl) (omega arith)

-- Every request carries the token.
abbrev carrying : Request → GoError ⊎ Text
carrying r = inr token

user_routes-roles_example :
    ((txt "User" ≡ role_admin)
      × (user_routes outside deps carrying
            (jwt_manager library jwt)
            9
            delete_user
            request
            fresh
            world
          ≡ user_action outside deps delete_user request fresh world))
    ⊎ ((txt "User" ≢ role_admin)
        × ((user_routes outside deps carrying
              (jwt_manager library jwt)
              9
              delete_user
              request
              fresh
              world).1
            ≡ world)
        × IsDenial
            (user_routes outside deps carrying
              (jwt_manager library jwt)
              9
              delete_user
              request
              fresh
              world).0.status)
unfolding clean_architect.Tokens.jwt_manager clean_architect.Tokens.jwt_create_token
user_routes-roles_example =
    user_routes-roles outside deps (jwt_manager library jwt) (pos 60_000_000_000)
      (jwt_manager-IsTimed library library-JwtLaws jwt) carrying 5 9 1 (txt "User") token
      delete_user request world refl refl (omega arith)
