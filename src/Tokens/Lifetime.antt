-- ===== src/Tokens/Lifetime.antt =====
-- How long a token verifies.
use clean_architect.Cache.{Duration}
use clean_architect.Domain.{Uuid, Time}
use clean_architect.Errs.{GoError, wrapped}
use clean_architect.Service.Credentials.{Claims, Manager}
use clean_architect.Tokens.{
  validated, add_duration, JwtClaims, JwtLibrary, JwtManager, jwt_claims, key_of, jwt_create_token,
  jwt_verify_token, jwt_manager, PasetoLibrary, paseto_create_token, paseto_verify_token,
  paseto_manager,
}
use clean_architect.Common.{
  ℕ, ◌+◌, ◌≤◌, ◌<◌, ◌≡◌, refl, ◌⊎◌, inl, inr, true, false, none, some, ◌++◌, arith, nat_eq, Text,
  txt, text_eq,
}

abbrev pub one_second : ℕ
one_second = 1_000_000_000

-- What a caller of a manager relies on: a token gives its claims back until a second before it is as
-- old as the duration, and an error once it is older.
pub record IsTimed (manager : Manager) (duration : Duration) : Type 0 where
  pub accepts :
      (now later : Time) (id : Uuid) (role token : Text)
      → manager.create_token now id role ≡ inr token
      → later + one_second ≤ add_duration now duration
      → manager.verify_token later token ≡ inr (record { user_id = id; user_role = role })
  pub expires :
      (now later : Time) (id : Uuid) (role token : Text)
      → manager.create_token now id role ≡ inr token
      → add_duration now duration < later
      → (err : GoError) × (manager.verify_token later token ≡ inl err)

-- The documented behaviour of golang-jwt: dates are cut to seconds; a signed token is parsed with the
-- key it was signed with before it expires, and is refused after that, or where no key is given.
pub record JwtLaws {M : Type 0} (lib : JwtLibrary M) : Type 0 where
  pub same_self : (m : M) → lib.same_method m m ≡ true
  pub date_before : (t : Time) → lib.numeric_date t ≤ t
  pub date_close : (t : Time) → t < lib.numeric_date t + one_second
  pub parses :
      (m : M) (c : JwtClaims) (key token : Text) (now : Time) (keys : M → GoError ⊎ Text)
      → lib.sign m c key ≡ inr token
      → keys m ≡ inr key
      → now < c.expires_at
      → lib.parse now token keys ≡ inr (c, true)
  pub refuses_expired :
      (m : M) (c : JwtClaims) (key token : Text) (now : Time) (keys : M → GoError ⊎ Text)
      → lib.sign m c key ≡ inr token
      → c.expires_at ≤ now
      → (err : GoError) × (lib.parse now token keys ≡ inl err)
  pub refuses_keyless :
      (m : M) (c : JwtClaims) (key token : Text) (now : Time) (keys : M → GoError ⊎ Text)
      (e : GoError)
      → lib.sign m c key ≡ inr token
      → keys m ≡ inl e
      → (err : GoError) × (lib.parse now token keys ≡ inl err)

module _ {M : Type 0} (lib : JwtLibrary M) (laws : JwtLaws lib) (j : JwtManager M) where
  key_of_self : key_of lib j j.signing_method ≡ inr j.key
  unfolding key_of
  key_of_self = rw (laws.same_self j.signing_method) refl

  -- The manager of JSON web tokens: whatever its method, key and duration, a token gives its claims
  -- back until a second before it is as old as the duration, and an error once it is older.
  pub jwt_manager-IsTimed : IsTimed (jwt_manager lib j) j.duration
  unfolding jwt_manager jwt_create_token jwt_verify_token
  jwt_manager-IsTimed = record {
    accepts = λ now. λ later. λ id. λ role. λ token. λ made. λ early.
        rw
          (laws.parses j.signing_method (jwt_claims lib j now id role) j.key token later
            (key_of lib j) made key_of_self (omega arith))
          refl;
    expires = λ now. λ later. λ id. λ role. λ token. λ made. λ late.
        let (err, e) =
          laws.refuses_expired j.signing_method (jwt_claims lib j now id role) j.key token later
            (key_of lib j) made (omega arith) in
        (err, rw e refl);
  }

  -- A token that is signed by another method is never accepted, at any time: by whatever key and
  -- with whatever claims, if the library tells the two methods apart.
  pub other_method_refused :
      (m : M) (c : JwtClaims) (key token : Text) (now : Time)
      → lib.same_method m j.signing_method ≡ false
      → lib.sign m c key ≡ inr token
      → (err : GoError) × (jwt_verify_token lib j now token ≡ inl err)
  unfolding jwt_verify_token key_of
  other_method_refused m c key token now differ made =
      let (err, e) =
        laws.refuses_keyless m c key token now (key_of lib j)
          (wrapped (lib.alg m ++ txt " ") lib.token_signature_invalid) made
          (rw (key_of, differ) refl) in
      (err, rw e refl)

-- The documented behaviour of paseto: what was encrypted under a key is decrypted under it, its date
-- cut to seconds; a date is valid until it is past.
pub record PasetoLaws (lib : PasetoLibrary) : Type 0 where
  pub written_date : Time → Time
  pub written_before : (t : Time) → written_date t ≤ t
  pub written_close : (t : Time) → t < written_date t + one_second
  pub decrypts :
      (key token : Text) (expiration : Time) (claims : Claims)
      → lib.encrypt key expiration claims ≡ inr token
      → lib.decrypt token key ≡ inr (written_date expiration, claims)
  pub validates : (now expiration : Time) → now ≤ expiration → lib.valid_at now expiration ≡ none
  pub refuses :
      (now expiration : Time)
      → expiration < now
      → (err : GoError) × (lib.valid_at now expiration ≡ some err)

-- The manager of paseto tokens keeps the same promise.
pub paseto_manager-IsTimed :
    (lib : PasetoLibrary) (laws : PasetoLaws lib) (key : Text) (duration : Duration)
    → IsTimed (paseto_manager lib key duration) duration
unfolding paseto_manager paseto_create_token paseto_verify_token
paseto_manager-IsTimed lib laws key duration = record {
  accepts = λ now. λ later. λ id. λ role. λ token. λ made. λ early.
      let close = laws.written_close (add_duration now duration) in
      rw (laws.decrypts key token (add_duration now duration) _ made) (
        rw
          (
            laws.validates later (laws.written_date (add_duration now duration)) (omega arith),
            validated,
          )
          refl);
  expires = λ now. λ later. λ id. λ role. λ token. λ made. λ late.
      let before = laws.written_before (add_duration now duration) in
      let (err, e) =
        laws.refuses later (laws.written_date (add_duration now duration)) (omega arith) in
      (
        err,
        rw (laws.decrypts key token (add_duration now duration) _ made) (rw (e, validated) refl),
      );
}
