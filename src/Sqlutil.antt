-- ===== src/Sqlutil.antt =====
-- pkg/sqlutil/list.go: the SQL text and the arguments of a paginated list.
pub mod Where
pub mod Placeholders
pub mod Balance
pub mod Paging
mod Tests
use clean_architect.Common.Int.{ℤ, pos, ◌-ℤ◌, ◌*ℤ◌, wrap64}
use clean_architect.Paginate.{
  Filter, Sort, Pagination, filter_equal, filter_not_equal, filter_greater, filter_greater_equal,
  filter_less, filter_less_equal, filter_in, filter_between, set_total_items,
}
use clean_architect.Errs.{GoError}
use clean_architect.Common.{
  ◌*◌, ◌<◌, ◌⊎◌, inl, inr, Bool, true, false, Option, none, some, List, [], ◌∷◌, ◌++◌, map,
  if◌then◌else◌, ◌==◌, nat_eq, length, concat_map, Text, txt, text_eq, contains_byte, split, join,
  trim_right, repeat_text, Dict, lookup,
}

-- An argument of a query: `any` holds a string or an int here.
pub data Argument : Type 0 where
  string_argument : Text → Argument
  int_argument : ℤ → Argument

unfoldable pub select_query : Text → List Text → Text
unfolding join
select_query table [] = txt "SELECT " ++ (txt "*" ++ (txt " FROM " ++ table))
select_query table (f ∷ fields) =
    txt "SELECT " ++ (join (txt ",") (f ∷ fields) ++ (txt " FROM " ++ table))

unfoldable pub condition_to_sql : Text → Text
condition_to_sql condition =
    if condition == filter_equal
    then txt "="
    else if condition == filter_not_equal
    then txt "<>"
    else if condition == filter_greater
    then txt ">"
    else if condition == filter_greater_equal
    then txt ">="
    else if condition == filter_less
    then txt "<"
    else if condition == filter_less_equal
    then txt "<="
    else []

-- The switch of the loop's body for a filter on a queryable `field`: the clause and the arguments
-- that it appends, or `none` for `continue`.
unfoldable pub between_clause : Text → List Text → Option (Text × List Argument)
between_clause field (first ∷ second ∷ values) =
    some (field ++ txt " BETWEEN ? AND ?", string_argument first ∷ string_argument second ∷ [])
between_clause field _ = none

unfoldable pub in_clause : Text → List Text → Option (Text × List Argument)
unfolding repeat_text
in_clause field (first ∷ second ∷ values) = some (
  field ++ (txt " IN(?" ++ (repeat_text (txt ",?") (length (second ∷ values)) ++ txt ")")),
  map string_argument (first ∷ second ∷ values),
)
in_clause field _ = none

unfoldable pub default_clause : Text → Filter → Option (Text × List Argument)
unfolding contains_byte condition_to_sql
default_clause field filter =
    if contains_byte filter.value 44
    then none
    else some (
      field ++ (txt " " ++ (condition_to_sql filter.condition ++ txt " ?")),
      string_argument filter.value ∷ [],
    )

unfoldable pub clause : Text → Filter → Option (Text × List Argument)
unfolding between_clause in_clause default_clause split
clause field filter =
    if filter.condition == filter_between
    then between_clause field (split 44 filter.value)
    else if filter.condition == filter_in
    then in_clause field (split 44 filter.value)
    else default_clause field filter

-- The variables of the loop: the query builder, `hasAlreadyWhereQuery` and `args`.
pub record Loop : Type 0 where
  pub query : Text
  pub has_already_where_query : Bool
  pub args : List Argument

abbrev add_clause : Loop → Option (Text × List Argument) → Loop
add_clause l none = l
add_clause l (some (where_text, args)) = record {
  query = l.query ++ (where_text ++ txt " AND ");
  has_already_where_query = true;
  args = l.args ++ args;
}

-- One round of the loop: a filter on a key that is not queryable is skipped.
unfoldable pub add_filter : Dict Text Text → Loop → Filter → Loop
unfolding lookup clause
add_filter queryable_fields l filter = elim (lookup filter.key queryable_fields) [
  | none ↦ l
  | some field ↦ add_clause l (clause field filter)
]

unfoldable pub add_all : Dict Text Text → Loop → List Filter → Loop
unfolding add_filter
add_all queryable_fields l [] = l
add_all queryable_fields l (filter ∷ filters) =
    add_all queryable_fields (add_filter queryable_fields l filter) filters

unfoldable pub where_result : Loop → Text × List Argument
unfolding trim_right
where_result l =
    if l.has_already_where_query then (trim_right (txt " AND ") l.query, l.args) else ([], [])

unfoldable pub where_query : List Filter → Dict Text Text → Text × List Argument
unfolding add_all where_result
where_query [] queryable_fields = ([], [])
where_query (filter ∷ filters) queryable_fields = where_result (
    add_all queryable_fields
      (record { query = txt "WHERE "; has_already_where_query = false; args = [] })
      (filter ∷ filters))

abbrev sort_text : Sort → Text
sort_text s = txt " " ++ (s.field ++ (txt " " ++ (s.arrange ++ txt ",")))

unfoldable pub order_by_query : List Sort → Text
unfolding trim_right
order_by_query [] = []
order_by_query (s ∷ sorts) =
    trim_right (txt ",") (txt "ORDER BY" ++ concat_map sort_text (s ∷ sorts))

-- `(page - 1) * perPage` wraps around in 64 bits.
unfoldable pub limit_query : ℤ → ℤ → Text × List Argument
unfolding wrap64 ◌-ℤ◌ ◌*ℤ◌
limit_query page per_page = (
  txt "LIMIT ? offset ?",
  int_argument per_page ∷ int_argument (wrap64 (wrap64 (page -ℤ pos 1) *ℤ per_page)) ∷ [],
)

unfoldable pub build_pagination_query : Text → Pagination → Dict Text Text → Text × List Argument
unfolding select_query where_query order_by_query limit_query
build_pagination_query table pagination queryable_fields =
    let (where_text, where_args) = where_query pagination.filters queryable_fields in
    let (limit, limit_args) = limit_query pagination.page pagination.per_page in
    (
      select_query table pagination.fields
          ++ (txt "\n"
              ++ (where_text
                  ++ (txt "\n" ++ (order_by_query pagination.sort ++ (txt "\n" ++ limit))))),
      where_args ++ limit_args,
    )

-- `PaginatedList`. The database of package sqlx is a parameter: `select` answers SelectContext and
-- `count` answers GetContext, each given the text and the arguments. The second part of the result
-- is the pagination that the function leaves behind its pointer.
module _ {T : Type 0} (select : Text → List Argument → GoError ⊎ List T)
    (count : Text → List Argument → GoError ⊎ ℤ) where
  unfoldable pub paginated_list :
      Text → Pagination → Dict Text Text → (GoError ⊎ List T) × Pagination
  paginated_list table pagination queryable_fields =
      let built = build_pagination_query table pagination queryable_fields in
      let filtered = where_query pagination.filters queryable_fields in
      let counting = txt "SELECT count(1) FROM " ++ (table ++ (txt " " ++ filtered.0)) in
      elim (select built.0 built.1) [
        | inl err ↦ (inl err, pagination)
        | inr rows ↦ elim (count counting filtered.1) [
          | inl err ↦ (inl err, pagination)
          | inr n ↦ (inr rows, set_total_items n pagination)
        ]
      ]
