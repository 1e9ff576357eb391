-- ===== src/Sqlutil/Tests.antt =====
-- The test of pkg/sqlutil/list_test.go, and the properties at concrete inputs.
use clean_architect.Common.Int.{pos}
use clean_architect.Paginate.{Pagination}
use clean_architect.Sqlutil.{string_argument, int_argument, build_pagination_query}
use clean_architect.Common.{◌≡◌, refl, [], ◌∷◌, nat_eq, Text, txt, text_beq, text_eq, Dict}

abbrev columns : Dict Text Text
columns = (txt "name", txt "name") ∷ (txt "status", txt "status") ∷ []

abbrev sample : Pagination
sample = record {
  page = pos 3;
  per_page = pos 15;
  fields = txt "name" ∷ txt "id" ∷ [];
  sort =
      record { field = txt "id"; arrange = txt "desc" }
      ∷ record { field = txt "name"; arrange = txt "asc" }
      ∷ [];
  filters =
      record { key = txt "name"; value = txt "amir,admin,test"; condition = txt "in" }
      ∷ record { key = txt "status"; value = txt "1,2"; condition = txt "in" }
      ∷ [];
  total_items = pos 0;
}

build_test : build_pagination_query (txt "user") sample columns ≡ (
  txt
      "SELECT name,id FROM user\nWHERE name IN(?,?,?) AND status IN(?,?)\nORDER BY id desc, name asc\nLIMIT ? offset ?",
  string_argument (txt "amir")
      ∷ string_argument (txt "admin")
      ∷ string_argument (txt "test")
      ∷ string_argument (txt "1")
      ∷ string_argument (txt "2")
      ∷ int_argument (pos 15)
      ∷ int_argument (pos 30)
      ∷ [],
)
unfolding build_pagination_query text_beq
build_test = refl
