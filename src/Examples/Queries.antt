-- ===== src/Examples/Queries.antt =====
-- The queries of the list requests.
use clean_architect.Common.Int.{pos}
use mathlib.Core.List.{Permᴰ}
use clean_architect.Paginate.{Pagination, Filter, Sort, Values, parse_from_request, new_filter}
use clean_architect.Paginate.WellFormed.{IsWellFormed, parse_from_request-IsWellFormed}
use clean_architect.Paginate.Order.{parse_from_request-perm}
use clean_architect.Sqlutil.{where_query, build_pagination_query, order_by_query}
use clean_architect.Sqlutil.Where.{where_of, kept, where_query-eq-where_of}
use clean_architect.Sqlutil.Balance.{build_pagination_query-balanced}
use clean_architect.Sqlutil.Placeholders.{marks}
use clean_architect.Sqlutil.Paging.{sort_item, order_by_query-join}
use clean_architect.Common.{
  ◌≡◌, refl, inl, inr, ◌++◌, map, join, List, [], ◌∷◌, nat_eq, length, Text, txt, text_beq, text_eq,
  occurrences, Dict,
}

abbrev columns : Dict Text Text
columns = (txt "name", txt "u.name") ∷ (txt "age", txt "age") ∷ []

abbrev filters : List Filter
filters =
    record { key = txt "age"; value = txt "18,60"; condition = txt "between" }
    ∷ record { key = txt "secret"; value = txt "1"; condition = txt "eq" }
    ∷ record { key = txt "name"; value = txt "amir"; condition = txt "neq" }
    ∷ []

abbrev by_name : Sort
by_name = record { field = txt "name"; arrange = txt "asc" }

abbrev by_age : Sort
by_age = record { field = txt "age"; arrange = txt "desc" }

abbrev page : Pagination
page = record {
  page = pos 2;
  per_page = pos 10;
  fields = txt "id" ∷ [];
  sort = by_name ∷ [];
  filters = filters;
  total_items = pos 0;
}

where_query-eq-where_of_example : where_query filters columns ≡ where_of (kept columns filters)
where_query-eq-where_of_example = where_query-eq-where_of filters columns

build_pagination_query-balanced_example :
    marks (build_pagination_query (txt "users") page columns).0
    ≡ length (build_pagination_query (txt "users") page columns).1
unfolding occurrences
build_pagination_query-balanced_example =
    build_pagination_query-balanced (txt "users") page columns refl (refl, tt) ((refl, refl), tt)
      (refl, (refl, tt))

abbrev sorts : List Sort
sorts =
    record { field = txt "name"; arrange = txt "asc" }
    ∷ record { field = txt "age"; arrange = txt "desc" }
    ∷ []

order_by_query-join_example :
    order_by_query sorts ≡ txt "ORDER BY" ++ join (txt ",") (map sort_item sorts)
order_by_query-join_example =
    order_by_query-join (record { field = txt "name"; arrange = txt "asc" })
      (record { field = txt "age"; arrange = txt "desc" } ∷ []) (inl refl, (inr refl, tt))

abbrev request : Values
request = (txt "sort", txt "name" ∷ txt "asc" ∷ []) ∷ (txt "age", txt "18" ∷ txt "gte" ∷ []) ∷ []

abbrev request' : Values
request' = (txt "age", txt "18" ∷ txt "gte" ∷ []) ∷ (txt "sort", txt "name" ∷ txt "asc" ∷ []) ∷ []

parse_from_request-IsWellFormed_example : IsWellFormed (parse_from_request request)
parse_from_request-IsWellFormed_example = parse_from_request-IsWellFormed request

parse_from_request-perm_example :
    Permᴰ (parse_from_request request).sort (parse_from_request request').sort
    × Permᴰ (parse_from_request request).filters (parse_from_request request').filters
unfolding clean_architect.Paginate.is_valid_filter_condition
    clean_architect.Paginate.is_valid_sort_arrange text_beq
parse_from_request-perm_example =
    parse_from_request-perm request request' (Permᴰ.swap refl refl)
      ((refl, refl), ((refl, refl), tt))
