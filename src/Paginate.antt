-- ===== src/Paginate.antt =====
-- pkg/paginate/paginate.go: the pagination, sorting and filters of a list request.
pub mod WellFormed
pub mod Order
mod Tests
use clean_architect.Common.Int.{ℤ, pos, is_pos}
use mathlib.Core.List.{foldl}
use clean_architect.Common.{
  Bool, ◌||◌, Option, none, some, List, [], ◌∷◌, ◌++◌, if◌then◌else◌, ◌==◌, nat_eq, contains, Text,
  txt, text_eq, contains_byte, split, atoi, Dict, lookup,
}

abbrev pub default_per_page_size : ℤ
default_per_page_size = pos 10

abbrev pub filter_equal : Text
filter_equal = txt "eq"

abbrev pub filter_not_equal : Text
filter_not_equal = txt "neq"

abbrev pub filter_greater : Text
filter_greater = txt "gt"

abbrev pub filter_greater_equal : Text
filter_greater_equal = txt "gte"

abbrev pub filter_less : Text
filter_less = txt "lt"

abbrev pub filter_less_equal : Text
filter_less_equal = txt "lte"

abbrev pub filter_in : Text
filter_in = txt "in"

abbrev pub filter_between : Text
filter_between = txt "between"

abbrev pub filter_like : Text
filter_like = txt "like"

abbrev pub sort_order_ascending : Text
sort_order_ascending = txt "asc"

abbrev pub sort_order_descending : Text
sort_order_descending = txt "desc"

abbrev pub page_param_name : Text
page_param_name = txt "page"

abbrev pub per_page_param_name : Text
per_page_param_name = txt "per_page"

abbrev pub sort_param_name : Text
sort_param_name = txt "sort"

abbrev pub fields_param_name : Text
fields_param_name = txt "fields"

abbrev pub default_sorting_arrange : Text
default_sorting_arrange = sort_order_descending

abbrev pub default_filter_condition : Text
default_filter_condition = filter_equal

pub record Filter : Type 0 where
  pub key : Text
  pub value : Text
  pub condition : Text

pub record Sort : Type 0 where
  pub field : Text
  pub arrange : Text

pub record Pagination : Type 0 where
  pub page : ℤ
  pub per_page : ℤ
  pub fields : List Text
  pub sort : List Sort
  pub filters : List Filter
  pub total_items : ℤ

unfoldable pub is_valid_filter_condition : Text → Bool
unfolding contains
is_valid_filter_condition condition =
    contains
      (filter_equal ∷ filter_not_equal ∷ filter_greater ∷ filter_greater_equal ∷ filter_less
        ∷ filter_less_equal ∷ filter_in ∷ filter_between ∷ filter_like ∷ [])
      condition

unfoldable pub is_valid_sort_arrange : Text → Bool
unfolding contains
is_valid_sort_arrange arrange = contains (sort_order_ascending ∷ sort_order_descending ∷ []) arrange

-- url.Values: the entries of the map, in the order in which one `range` loop visits them.
abbrev pub Values : Type 0
Values = Dict Text (List Text)

-- queries.Get: the first value, or "".
unfoldable pub get : Text → Values → Text
unfolding lookup
get key queries = elim (lookup key queries) [
  | none ↦ []
  | some values ↦ elim values [ [] ↦ [] | v ∷ vs ↦ v ]
]

abbrev pub positive_or : ℤ → Option ℤ → ℤ
positive_or default none = default
positive_or default (some n) = if is_pos n then n else default

-- The two blocks that read `page` and `per_page`.
unfoldable pub positive_param : Text → ℤ → Values → ℤ
unfolding get lookup atoi
positive_param name default queries = elim (lookup name queries) [
  | none ↦ default
  | some values ↦ positive_or default (atoi (get name queries))
]

-- The body of both inner loops: a value that `modifies` sets the last item, if there is one; any
-- other value appends a new item.
module _ {ℓ} {A : Type ℓ} (modifies : Text → Bool) (modify : Text → A → A) (item : Text → A) where
  unfoldable pub set_last : Text → List A → List A
  set_last v [] = []
  set_last v (a ∷ []) = modify v a ∷ []
  set_last v (a ∷ b ∷ items) = a ∷ set_last v (b ∷ items)

  unfoldable pub add_value : List A → Text → List A
  unfolding set_last
  add_value items v = if modifies v then set_last v items else items ++ (item v ∷ [])

  -- `for _, v := range values`
  unfoldable pub add_values : List A → List Text → List A
  unfolding add_value
  add_values items [] = items
  add_values items (v ∷ values) = add_values (add_value items v) values

abbrev set_arrange : Text → Sort → Sort
set_arrange v s = record s { arrange = v }

abbrev new_sort : Text → Sort
new_sort v = record { field = v; arrange = default_sorting_arrange }

unfoldable pub add_sorts : List Sort → List Text → List Sort
unfolding add_values is_valid_sort_arrange
add_sorts = add_values is_valid_sort_arrange set_arrange new_sort

abbrev set_condition : Text → Filter → Filter
set_condition v f = record f { condition = v }

abbrev pub new_filter : Text → Text → Filter
new_filter query v = record { key = query; value = v; condition = default_filter_condition }

unfoldable pub add_filters : Text → List Filter → List Text → List Filter
unfolding add_values is_valid_filter_condition
add_filters query = add_values is_valid_filter_condition set_condition (new_filter query)

-- The three tests by which a round of the outer loop is skipped or reads the sorting.
unfoldable pub is_injecting : Text → Bool
unfolding contains_byte
is_injecting query = contains_byte query 32 || contains_byte query 59

unfoldable pub is_reserved : Text → Bool
unfolding contains
is_reserved query = contains (page_param_name ∷ per_page_param_name ∷ fields_param_name ∷ []) query

-- One round of the outer loop.
unfoldable pub visit : List Sort × List Filter → Text × List Text → List Sort × List Filter
unfolding is_injecting is_reserved add_sorts add_filters
visit (sort, filters) (query, values) =
    if is_injecting query
    then (sort, filters)
    else if is_reserved query
    then (sort, filters)
    else if query == sort_param_name
    then (add_sorts sort values, filters)
    else (sort, add_filters query filters values)

unfoldable pub visit_all : List Sort × List Filter → Values → List Sort × List Filter
unfolding visit
visit_all found [] = found
visit_all found (entry ∷ queries) = visit_all (visit found entry) queries

unfoldable pub parse_fields : Text → List Text
unfolding split
parse_fields [] = []
parse_fields (c ∷ f) = split 44 (c ∷ f)

unfoldable pub parse_from_request : Values → Pagination
unfolding positive_param parse_fields visit_all
parse_from_request queries =
    let (sort, filters) = visit_all ([], []) queries in
    record {
      page = positive_param page_param_name (pos 1) queries;
      per_page = positive_param per_page_param_name default_per_page_size queries;
      fields = parse_fields (get fields_param_name queries);
      sort = sort;
      filters = filters;
      total_items = pos 0;
    }

unfoldable pub set_total_items : ℤ → Pagination → Pagination
set_total_items total_items p = record p { total_items = total_items }
