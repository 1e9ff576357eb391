-- ===== src/Domain.antt =====
-- internal/domain: users and credentials; infra/migrations/model/user.go: the rows of table user.
pub mod Rows
use clean_architect.Common.Int.{ℤ, to_word64}
use clean_architect.Common.{
  ℕ, ◌%◌, ◌^◌, Option, none, some, List, [], map, if◌then◌else◌, ◌==◌, nat_eq, Text, txt, text_eq,
}

-- uuid.UUID is an array of 16 bytes, here the number that the bytes spell; uuid.Nil is 0.
abbrev pub Uuid : Type 0
Uuid = ℕ

-- time.Time in nanoseconds from the zero time, which is 0.
abbrev pub Time : Type 0
Time = ℕ

-- type UserStatus uint8, with constants from iota + 1.
abbrev pub UserStatus : Type 0
UserStatus = ℕ

abbrev pub status_new : UserStatus
status_new = 1

abbrev pub status_active : UserStatus
status_active = 2

abbrev pub status_banned : UserStatus
status_banned = 3

abbrev pub status_deleted : UserStatus
status_deleted = 4

unfoldable pub status_string : UserStatus → Text
status_string status =
    if status == status_new
    then txt "new"
    else if status == status_active
    then txt "active"
    else if status == status_banned
    then txt "banned"
    else if status == status_deleted
    then txt "deleted"
    else []

abbrev pub UserRole : Type 0
UserRole = Text

abbrev pub role_normal : UserRole
role_normal = txt "User"

abbrev pub role_admin : UserRole
role_admin = txt "Admin"

pub record User : Type 0 where
  pub id : Uuid
  pub name : Text
  pub phone_number : Text
  pub email : Text
  pub password : Text
  pub status : UserStatus
  pub role : UserRole
  pub created_at : Time

-- domain.User{}
abbrev pub zero_user : User
zero_user = record {
  id = 0;
  name = [];
  phone_number = [];
  email = [];
  password = [];
  status = 0;
  role = [];
  created_at = 0;
}

pub record Auth : Type 0 where
  pub email : Text
  pub phone_number : Text
  pub password : Text

-- model.User
pub record UserRow : Type 0 where
  pub id : Uuid
  pub name : Text
  pub phone : Text
  pub email : Text
  pub password : Text
  pub status : ℤ
  pub role : Text
  pub created_at : Text

-- time.Parse and Time.Format with the layout RFC3339 are parameters; a text that does not parse
-- gives the zero time, since the error is dropped.
module _ (parse_time : Text → Option Time) where
  unfoldable pub convert_user_to_domain : UserRow → User
  unfolding to_word64
  convert_user_to_domain user = record {
    id = user.id;
    name = user.name;
    phone_number = user.phone;
    email = user.email;
    password = user.password;
    status = to_word64 user.status % 2 ^ 8;
    role = user.role;
    created_at = elim (parse_time user.created_at) [ none ↦ 0 | some t ↦ t ];
  }

  unfoldable pub convert_users_to_domains : List UserRow → List User
  unfolding convert_user_to_domain
  convert_users_to_domains = map convert_user_to_domain
