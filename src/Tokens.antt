-- ===== src/Tokens.antt =====
-- pkg/auth and pkg/hash: the managers of tokens, and the hasher of passwords, over their libraries.
pub mod Lifetime
pub mod Session
use clean_architect.Common.Int.{ℤ, pos, negsuc}
use clean_architect.Cache.{Duration}
use clean_architect.Domain.{Uuid, Time}
use clean_architect.Errs.{GoError, wrapped, text_error, message}
use clean_architect.Service.Credentials.{Claims, Manager, Hasher}
use clean_architect.Common.{
  ◌+◌, ◌-◌, ◌⊎◌, inl, inr, Bool, not, Option, none, some, ◌++◌, if◌then◌else◌, nat_eq, Text, txt,
  text_eq,
}

-- Time.Add, for a sum that does not lie before the zero time.
unfoldable pub add_duration : Time → Duration → Time
add_duration t (pos n) = t + n
add_duration t (negsuc n) = t - (n + 1)

-- type jwtClaims: the expiry of the RegisteredClaims, and the program's own.
pub record JwtClaims : Type 0 where
  pub expires_at : Time
  pub claims : Claims

-- Package golang-jwt, with signing methods of a type `M`: `parse` is ParseWithClaims at a time, with
-- the function that gives the key for the method of the token; it answers the claims and the flag
-- Valid.
pub record JwtLibrary (M : Type 0) : Type 0 where
  pub same_method : M → M → Bool
  pub alg : M → Text
  pub numeric_date : Time → Time
  pub sign : M → JwtClaims → Text → GoError ⊎ Text
  pub parse : Time → Text → (M → GoError ⊎ Text) → GoError ⊎ (JwtClaims × Bool)
  pub token_signature_invalid : GoError
  pub token_not_valid_yet : GoError

-- type jwtManager
pub record JwtManager (M : Type 0) : Type 0 where
  pub signing_method : M
  pub key : Text
  pub duration : Duration

module _ {M : Type 0} (lib : JwtLibrary M) (j : JwtManager M) where
  abbrev claims_of : Uuid → Text → Claims
  claims_of id role = record { user_id = id; user_role = role }

  abbrev pub jwt_claims : Time → Uuid → Text → JwtClaims
  unfolding add_duration
  jwt_claims now id role = record {
    expires_at = lib.numeric_date (add_duration now j.duration);
    claims = claims_of id role;
  }

  unfoldable pub jwt_create_token : Time → Uuid → Text → GoError ⊎ Text
  unfolding add_duration
  jwt_create_token now id role = lib.sign j.signing_method (jwt_claims now id role) j.key

  -- The function that VerifyToken hands to the parser.
  unfoldable pub key_of : M → GoError ⊎ Text
  key_of method =
      if not (lib.same_method method j.signing_method)
      then inl (wrapped (lib.alg method ++ txt " ") lib.token_signature_invalid)
      else inr j.key

  abbrev checked : GoError ⊎ (JwtClaims × Bool) → GoError ⊎ Claims
  checked (inl err) = inl err
  checked (inr (c, valid)) = if not valid then inl lib.token_not_valid_yet else inr c.claims

  unfoldable pub jwt_verify_token : Time → Text → GoError ⊎ Claims
  unfolding key_of
  jwt_verify_token now token = checked (lib.parse now token key_of)

  -- NewJWT
  unfoldable pub jwt_manager : Manager
  unfolding jwt_create_token jwt_verify_token
  jwt_manager = record { create_token = jwt_create_token; verify_token = jwt_verify_token }

-- Package paseto, version 2: the expiry and the claims are encrypted under a key; `valid_at` is
-- Validate(ValidAt(now)) of the expiry.
pub record PasetoLibrary : Type 0 where
  pub encrypt : Text → Time → Claims → GoError ⊎ Text
  pub decrypt : Text → Text → GoError ⊎ (Time × Claims)
  pub valid_at : Time → Time → Option GoError

module _ (lib : PasetoLibrary) (key : Text) (duration : Duration) where
  unfoldable pub paseto_create_token : Time → Uuid → Text → GoError ⊎ Text
  unfolding add_duration
  paseto_create_token now id role =
      lib.encrypt key (add_duration now duration) (record { user_id = id; user_role = role })

  abbrev pub validated : Time → GoError ⊎ (Time × Claims) → GoError ⊎ Claims
  validated now (inl err) = inl err
  validated now (inr (expiration, claims)) = elim (lib.valid_at now expiration) [
    | some err ↦ inl err
    | none ↦ inr claims
  ]

  unfoldable pub paseto_verify_token : Time → Text → GoError ⊎ Claims
  paseto_verify_token now token = validated now (lib.decrypt token key)

  -- NewPaseto
  unfoldable pub paseto_manager : Manager
  unfolding paseto_create_token paseto_verify_token
  paseto_manager = record { create_token = paseto_create_token; verify_token = paseto_verify_token }

-- bcryptHasher: `generate` and `compare_hash` are those of package bcrypt.
unfoldable pub bcrypt_hash : (Text → ℤ → GoError ⊎ Text) → ℤ → Text → GoError ⊎ Text
unfolding message
bcrypt_hash generate cost pwd = elim (generate pwd cost) [
  | inl err ↦ inl (text_error (txt "failed to hash password: " ++ message err))
  | inr password ↦ inr password
]

-- NewBcryptHasher
unfoldable pub bcrypt_hasher :
    (Text → ℤ → GoError ⊎ Text) → (Text → Text → Option GoError) → ℤ → Hasher
unfolding bcrypt_hash
bcrypt_hasher generate compare_hash cost = record {
  hash = bcrypt_hash generate cost;
  compare = compare_hash;
}
