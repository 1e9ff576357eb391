-- ===== src/Handler.antt =====
-- api/http/handler/v2 and its dto: the routes of the users and of the credentials.
pub mod Effects
pub mod Routes
use clean_architect.Domain.{Uuid, User, Auth, Time, status_string, zero_user}
use clean_architect.Errs.{GoError, Detail, message}
use clean_architect.Http.{Response, write_header}
use clean_architect.Jsonutil.{encode, encode_error, Validation, decode_and_validate}
use clean_architect.Paginate.{Pagination, Values, parse_from_request}
use clean_architect.Service.Users.{Deps}
use clean_architect.Service.Credentials.{
  Hasher, Manager, Outcome, returned, panicked, register, login,
}
use clean_architect.Synq.{World}
use clean_architect.Common.{
  ℕ, ◌⊎◌, inl, inr, Bool, Option, none, some, List, map, nat_eq, Text, text_eq,
}
use clean_architect.Service.Users

-- dto.UserResponse
pub record UserResponse : Type 0 where
  pub id : Uuid
  pub name : Text
  pub phone_number : Text
  pub email : Text
  pub status : Text
  pub role : Text
  pub created_at : Time

-- dto.CreateUserRequest and dto.UpdateUserRequest, which have the same fields.
pub record UserRequest : Type 0 where
  pub name : Text
  pub phone_number : Text
  pub email : Text
  pub password : Text
  pub role : Text

-- dto.RegisterRequest
pub record RegisterRequest : Type 0 where
  pub name : Text
  pub email : Text
  pub phone_number : Text
  pub password : Text

-- The two methods ToDomain.
unfoldable pub to_domain : UserRequest → User
to_domain r = record zero_user {
  name = r.name;
  phone_number = r.phone_number;
  email = r.email;
  password = r.password;
  role = r.role;
}

unfoldable pub user_domain_to_dto : User → UserResponse
unfolding status_string
user_domain_to_dto u = record {
  id = u.id;
  name = u.name;
  phone_number = u.phone_number;
  email = u.email;
  status = status_string u.status;
  role = u.role;
  created_at = u.created_at;
}

-- The values that the handlers encode. `user_body` is a domain.User with every field, the password
-- included: the type has no tags.
pub data Body : Type 0 where
  error_map : Text → Body
  app_error : Text → ℕ → List Detail → Body
  users_body : List UserResponse → Pagination → Body
  user_body : User → Body
  token_body : Text → Body

-- What the handlers read of a request; package uuid's Parse and the JSON decoder are in the fields.
pub record Request : Type 0 where
  pub queries : Values
  pub path_id : GoError ⊎ Uuid
  pub user_request : GoError ⊎ UserRequest
  pub register_request : GoError ⊎ RegisterRequest
  pub auth_request : GoError ⊎ Auth

-- What the handlers take from outside: the encoder of JSON, the rules of the validator, the id that
-- uuid.New gives and the time.
pub record Outside : Type 0 where
  pub encodes : Body → Bool
  pub validate_user : UserRequest → Validation
  pub validate_register : RegisterRequest → Validation
  pub validate_auth : Auth → Validation
  pub new_id : Uuid
  pub now : Time

abbrev pub Reply : Type 0
Reply = Response Body

module _ {S B : Type 0} (out : Outside) (deps : Deps S B) where
  -- jsonutil.Encode(w, status, map[string]string{"error": err.Error()})
  abbrev reject : ℕ → GoError → Reply → Reply
  reject status err w = (encode out.encodes status (error_map (message err)) w).1

  abbrev listed :
      (GoError ⊎ List User) × Pagination × World S B User → Reply → Reply × World S B User
  listed (inl err, p, s) w = (reject 400 err w, s)
  listed (inr users, p, s) w =
      ((encode out.encodes 200 (users_body (map user_domain_to_dto users) p) w).1, s)

  unfoldable pub list : Request → Reply → World S B User → Reply × World S B User
  unfolding encode message user_domain_to_dto
  list r w s = listed (Users.list deps (parse_from_request r.queries) s) w

  abbrev answered : ℕ → ℕ → (GoError ⊎ User) × World S B User → Reply → Reply × World S B User
  answered failed done (inl err, s) w = (reject failed err w, s)
  answered failed done (inr user, s) w = ((encode out.encodes done (user_body user) w).1, s)

  unfoldable pub create : Request → Reply → World S B User → Reply × World S B User
  unfolding encode message to_domain decode_and_validate
  create r w s = elim (decode_and_validate deps.frame out.validate_user r.user_request) [
    | inl err ↦ (reject 400 err w, s)
    | inr req ↦ answered 500 201 (Users.create deps out.new_id out.now (to_domain req) s) w
  ]

  abbrev emptied : (GoError ⊎ (Unit {0})) × World S B User → Reply → Reply × World S B User
  emptied (inl err, s) w = (reject 500 err w, s)
  emptied (inr _, s) w = (write_header 204 w, s)

  unfoldable pub delete : Request → Reply → World S B User → Reply × World S B User
  unfolding encode message write_header
  delete r w s = elim r.path_id [
    | inl err ↦ (reject 400 err w, s)
    | inr uid ↦ emptied (Users.delete deps uid s) w
  ]

  unfoldable pub update : Request → Reply → World S B User → Reply × World S B User
  unfolding encode message write_header to_domain decode_and_validate
  update r w s = elim r.path_id [
    | inl err ↦ (reject 400 err w, s)
    | inr uid ↦ elim (decode_and_validate deps.frame out.validate_user r.user_request) [
      | inl err ↦ (reject 400 err w, s)
      | inr req ↦ emptied (Users.update deps (record (to_domain req) { id = uid }) s) w
    ]
  ]

  unfoldable pub get : Request → Reply → World S B User → Reply × World S B User
  unfolding encode message
  get r w s = elim r.path_id [
    | inl err ↦ (reject 400 err w, s)
    | inr uid ↦ answered 404 200 (Users.get_by_id deps out.now uid s) w
  ]

  -- A panic of the service reaches the server, with the response as it is.
  module _ (hasher : Hasher) where
    abbrev fail : GoError → Reply → Reply
    fail err w = (encode_error out.encodes app_error err w).1

    abbrev registered_reply :
        Outcome (Unit {0}) × World S B User → Reply → Option Reply × World S B User
    registered_reply (panicked, s) w = (none, s)
    registered_reply (returned (inl err), s) w = (some (fail err w), s)
    registered_reply (returned (inr _), s) w = (some (write_header 201 w), s)

    abbrev auth_of : RegisterRequest → Auth
    auth_of r = record { email = r.email; phone_number = r.phone_number; password = r.password }

    unfoldable pub register_handler :
        Request → Reply → World S B User → Option Reply × World S B User
    unfolding encode_error write_header decode_and_validate
    register_handler r w s =
        elim (decode_and_validate deps.frame out.validate_register r.register_request) [
          | inl err ↦ (some (fail err w), s)
          | inr req ↦ registered_reply (register deps hasher out.new_id out.now (auth_of req) s) w
        ]

    abbrev login_reply : Outcome Text × World S B User → Reply → Option Reply × World S B User
    login_reply (panicked, s) w = (none, s)
    login_reply (returned (inl err), s) w = (some (fail err w), s)
    login_reply (returned (inr token), s) w =
        (some (encode out.encodes 200 (token_body token) w).1, s)

    unfoldable pub login_handler :
        Manager → Request → Reply → World S B User → Option Reply × World S B User
    unfolding encode encode_error decode_and_validate
    login_handler manager r w s =
        elim (decode_and_validate deps.frame out.validate_auth r.auth_request) [
          | inl err ↦ (some (fail err w), s)
          | inr auth ↦ login_reply (login deps hasher manager out.now auth s) w
        ]
