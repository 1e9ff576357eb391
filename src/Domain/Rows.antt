-- ===== src/Domain/Rows.antt =====
-- A user that is written to the table and read back.
use clean_architect.Common.Int.{pos, to_word64}
use clean_architect.Domain.{User, Time, UserRow, convert_user_to_domain}
use clean_architect.Common.{◌%◌, ◌^◌, ◌<◌, ◌≡◌, Option, some, arith, nat_eq, Text, text_eq}

-- The row that the INSERT of internal/repository/user/sql.go writes for a user.
abbrev pub row_of : (Time → Text) → User → UserRow
row_of format_time u = record {
  id = u.id;
  name = u.name;
  phone = u.phone_number;
  email = u.email;
  password = u.password;
  status = pos u.status;
  role = u.role;
  created_at = format_time u.created_at;
}

-- If the layout reads back what it writes for the user's creation time, the row of a user whose
-- status is a byte converts to that user.
pub convert_user_to_domain-row_of :
    (parse_time : Text → Option Time) (format_time : Time → Text) (u : User)
    → parse_time (format_time u.created_at) ≡ some u.created_at
    → u.status < 2 ^ 8
    → convert_user_to_domain parse_time (row_of format_time u) ≡ u
unfolding convert_user_to_domain
convert_user_to_domain-row_of parse_time format_time u h k =
    rw h (λ i. record u { status = byte i })
  where
    byte : to_word64 (pos u.status) % 2 ^ 8 ≡ u.status
    byte = omega arith
