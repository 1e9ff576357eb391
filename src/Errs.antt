-- ===== src/Errs.antt =====
-- pkg/errs/code.go and pkg/errs/error.go, with the `error` values that the program passes around.
pub mod Caller
pub mod Statuses
use clean_architect.Common.{
  ℕ, Bool, false, not, ◌||◌, Option, none, some, List, [], ◌∷◌, ◌++◌, nat_beq, if◌then◌else◌, ◌==◌,
  nat_eq, Text, txt, text_eq, decimal, Dict,
}

-- type ErrorCode int; the constants count from 1 by iota, and no other code is made negative.
abbrev pub ErrorCode : Type 0
ErrorCode = ℕ

abbrev pub code_unauthorized : ErrorCode
code_unauthorized = 1

abbrev pub code_forbidden_access : ErrorCode
code_forbidden_access = 2

abbrev pub code_not_found : ErrorCode
code_not_found = 3

abbrev pub code_existed : ErrorCode
code_existed = 4

abbrev pub code_invalid_argument : ErrorCode
code_invalid_argument = 5

abbrev pub code_internal : ErrorCode
code_internal = 6

-- The statuses are those of package net/http.
unfoldable pub http_status : ErrorCode → ℕ
http_status e =
    if e == code_unauthorized
    then 401
    else if e == code_forbidden_access
    then 403
    else if e == code_not_found
    then 404
    else if e == code_existed
    then 409
    else if e == code_invalid_argument
    then 400
    else 500

-- The codes of package google.golang.org/grpc/codes, by name.
pub data GrpcCode : Type 0 where
  unauthenticated permission_denied not_found already_exists invalid_argument internal : GrpcCode

unfoldable pub grpc_status : ErrorCode → GrpcCode
grpc_status e =
    if e == code_unauthorized
    then unauthenticated
    else if e == code_forbidden_access
    then permission_denied
    else if e == code_not_found
    then not_found
    else if e == code_existed
    then already_exists
    else if e == code_invalid_argument
    then invalid_argument
    else internal

-- The only details that the program attaches: the messages of each invalid field.
abbrev pub Detail : Type 0
Detail = Dict Text (List Text)

pub record AppError : Type 0 where
  pub msg : Text
  pub code : ErrorCode
  pub stack_trace : Text
  pub details : List Detail

-- Error values that the code compares against by identity.
pub data Sentinel : Type 0 where
  user_already_exists user_not_found cache_missed executor_not_defined : Sentinel
  empty_config_file_path mismatched_hash_and_password : Sentinel

abbrev pub sentinel_number : Sentinel → ℕ
sentinel_number user_already_exists = 0
sentinel_number user_not_found = 1
sentinel_number cache_missed = 2
sentinel_number executor_not_defined = 3
sentinel_number empty_config_file_path = 4
sentinel_number mismatched_hash_and_password = 5

-- A non-nil `error`: a sentinel, an error text of errors.New, fmt.Errorf or a library, *errs.Error
-- and errs.Error, which are two dynamic types, and the two ways of wrapping.
pub data GoError : Type 0 where
  sentinel : Sentinel → GoError
  text_error : Text → GoError
  app_pointer : AppError → GoError
  app_value : AppError → GoError
  wrapped : Text → GoError → GoError
  joined : GoError → GoError → GoError

abbrev sentinel_text : Sentinel → Text
sentinel_text user_already_exists = txt "user already exists"
sentinel_text user_not_found = txt "user not found"
sentinel_text cache_missed = txt "cache missed"
sentinel_text executor_not_defined = txt "executor not defined for this task"
sentinel_text empty_config_file_path = txt "empty config file path"
sentinel_text mismatched_hash_and_password =
    txt "crypto/bcrypt: hashedPassword is not the hash of the given password"

-- err.Error()
unfoldable pub message : GoError → Text
message (sentinel s) = sentinel_text s
message (text_error t) = t
message (app_pointer e) = e.msg
message (app_value e) = e.msg
message (wrapped t e) = t ++ message e
message (joined e f) = message e ++ (10 ∷ message f)

-- errors.Is(err, target) for a sentinel
unfoldable pub is_error : GoError → Sentinel → Bool
is_error (sentinel s) target = nat_beq (sentinel_number s) (sentinel_number target)
is_error (text_error t) target = false
is_error (app_pointer e) target = false
is_error (app_value e) target = false
is_error (wrapped t e) target = is_error e target
is_error (joined e f) target = is_error e target || is_error f target

abbrev first_found : Option AppError → Option AppError → Option AppError
first_found none o = o
first_found (some e) o = some e

-- errors.As(err, &appErr) with appErr of type *errs.Error
unfoldable pub as_app_pointer : GoError → Option AppError
as_app_pointer (sentinel s) = none
as_app_pointer (text_error t) = none
as_app_pointer (app_pointer e) = some e
as_app_pointer (app_value e) = none
as_app_pointer (wrapped t e) = as_app_pointer e
as_app_pointer (joined e f) = first_found (as_app_pointer e) (as_app_pointer f)

-- The loop of `caller` over i = len(file) - 1 … 1: `none` where no slash was met. The byte at
-- index 0 is not looked at.
unfoldable pub after_last_slash : Text → Option Text
after_last_slash [] = none
after_last_slash (c ∷ s) = elim (after_last_slash s) [
  | some short ↦ some short
  | none ↦ if nat_beq c 47 then some s else none
]

abbrev short_or : Text → Option Text → Text
short_or file none = file
short_or file (some short) = short

unfoldable pub short_file : Text → Text
unfolding after_last_slash
short_file [] = []
short_file (c ∷ s) = short_or (c ∷ s) (after_last_slash s)

-- `caller`, given what runtime.Caller(2) returns.
unfoldable pub caller : Option (Text × ℕ) → Text
unfolding short_file decimal
caller none = short_file (txt "???") ++ (58 ∷ decimal 0)
caller (some (file, line)) = short_file file ++ (58 ∷ decimal line)

-- The constructors; `frame` is what runtime.Caller(2) returns there.
module _ (frame : Option (Text × ℕ)) where
  unfoldable pub new : GoError → ErrorCode → List Detail → GoError
  unfolding message
  new err code details =
      let err' = if code == code_internal then text_error (txt "internal error") else err in
      app_pointer
        (record { msg = message err'; code = code; stack_trace = caller frame; details = details })

  unfoldable pub not_found_error : Text → GoError
  not_found_error entity = app_value (record {
    msg = entity ++ txt " not found";
    code = code_not_found;
    stack_trace = caller frame;
    details = [];
  })
