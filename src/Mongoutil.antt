-- ===== src/Mongoutil.antt =====
-- pkg/mongoutil/list.go: the filters, sortings and fields of a list request as documents of MongoDB.
pub mod Filters
use clean_architect.Common.Int.{ℤ, pos, negsuc, wrap64, ◌-ℤ◌, ◌*ℤ◌}
use clean_architect.Errs.{GoError}
use clean_architect.Paginate.{
  Filter, Sort, Pagination, sort_order_ascending, filter_like, filter_in, filter_between,
  filter_equal, filter_not_equal, filter_greater, filter_greater_equal, filter_less,
  filter_less_equal, set_total_items,
}
use clean_architect.Common.{
  ◌⊎◌, inl, inr, Option, none, some, List, [], ◌∷◌, ◌++◌, map, if◌then◌else◌, ◌==◌, nat_eq, Text,
  txt, text_eq, split, Dict, lookup,
}

-- sortAggregate
unfoldable pub sort_aggregate : List Sort → List (Text × ℤ)
sort_aggregate [] = []
sort_aggregate (s ∷ sorts) =
    (s.field, if s.arrange == sort_order_ascending then pos 1 else negsuc 0) ∷ sort_aggregate sorts

-- projectionAggregate
unfoldable pub projection_aggregate : List Text → List (Text × ℤ)
projection_aggregate [] = []
projection_aggregate (field ∷ fields) = (field, pos 1) ∷ projection_aggregate fields

-- conditionToNosql
unfoldable pub condition_to_nosql : Text → Text
condition_to_nosql condition =
    if condition == filter_equal
    then txt "$eq"
    else if condition == filter_not_equal
    then txt "$neq"
    else if condition == filter_greater
    then txt "$gt"
    else if condition == filter_greater_equal
    then txt "$gte"
    else if condition == filter_less
    then txt "$lt"
    else if condition == filter_less_equal
    then txt "$lte"
    else []

-- The numbers of ParseFloat are of a type `F`, the date times of the layout RFC3339 of a type `D`.
module _ (F D : Type 0) where
  -- What sanitize returns.
  pub data Scalar : Type 0 where
    float : F → Scalar
    date_time : D → Scalar
    string : Text → Scalar

  -- The value of one element of the filter: a regular expression, `$in` with an array, `$gte` and
  -- `$lte`, or one operator.
  pub data Match : Type 0 where
    regex : Text → Match
    among : List Scalar → Match
    within : Scalar → Scalar → Match
    compared : Text → Scalar → Match

module _ {F D : Type 0} (parse_float : Text → Option F) (parse_time : Text → Option D) where
  unfoldable pub sanitize : Text → Scalar F D
  sanitize v = elim (parse_float v) [
    | some digit ↦ float digit
    | none ↦ elim (parse_time v) [ some t ↦ date_time t | none ↦ string v ]
  ]

  unfoldable pub among_match : List Text → Option (Match F D)
  unfolding sanitize
  among_match (first ∷ second ∷ values) = some (among (map sanitize (first ∷ second ∷ values)))
  among_match _ = none

  unfoldable pub within_match : List Text → Option (Match F D)
  unfolding sanitize
  within_match (first ∷ second ∷ values) = some (within (sanitize first) (sanitize second))
  within_match _ = none

  -- The switch of the loop's body: the match, or `none` for `continue`.
  unfoldable pub match_of : Filter → Option (Match F D)
  unfolding among_match within_match sanitize condition_to_nosql split
  match_of filter =
      if filter.condition == filter_like
      then some (regex filter.value)
      else if filter.condition == filter_in
      then among_match (split 44 filter.value)
      else if filter.condition == filter_between
      then within_match (split 44 filter.value)
      else some (compared (condition_to_nosql filter.condition) (sanitize filter.value))

  -- The body of the loop, over the document so far and the variable `match`, which is declared
  -- before the loop: a filter that is skipped leaves in it the value of an earlier one.
  unfoldable pub aggregate_step :
      Dict Text Text
      → List (Text × Match F D) × List (Text × Match F D)
      → Filter
      → List (Text × Match F D) × List (Text × Match F D)
  unfolding match_of lookup
  aggregate_step queryable_fields (found, match) filter =
      elim (lookup filter.key queryable_fields) [
        | none ↦ (found, match)
        | some field ↦ elim (match_of filter) [
          | none ↦ (found, match)
          | some m ↦ let match' = (field, m) ∷ [] in (found ++ match', match')
        ]
      ]

  -- The loop of filterAggregate.
  unfoldable pub aggregate_all :
      Dict Text Text
      → List (Text × Match F D) × List (Text × Match F D)
      → List Filter
      → List (Text × Match F D)
  unfolding aggregate_step
  aggregate_all queryable_fields (found, match) [] = found
  aggregate_all queryable_fields vars (filter ∷ filters) =
      aggregate_all queryable_fields (aggregate_step queryable_fields vars filter) filters

  unfoldable pub filter_aggregate : List Filter → Dict Text Text → List (Text × Match F D)
  unfolding aggregate_all
  filter_aggregate [] queryable_fields = []
  filter_aggregate (filter ∷ filters) queryable_fields =
      aggregate_all queryable_fields ([], []) (filter ∷ filters)

  -- PaginatedList: `find` answers Find and All, given the limit, the skip, the sorting, the fields
  -- and the filter, and `count` answers CountDocuments.
  module _ {T : Type 0}
      (find : ℤ
        → ℤ
        → List (Text × ℤ)
        → List (Text × ℤ)
        → List (Text × Match F D)
        → GoError ⊎ List T)
      (count : List (Text × Match F D) → GoError ⊎ ℤ) where
    unfoldable pub mongo_list : Pagination → Dict Text Text → (GoError ⊎ List T) × Pagination
    unfolding wrap64 ◌-ℤ◌ ◌*ℤ◌ sort_aggregate projection_aggregate filter_aggregate
    mongo_list pagination queryable_fields =
        let filter = filter_aggregate pagination.filters queryable_fields in
        let skip = wrap64 (wrap64 (pagination.page -ℤ pos 1) *ℤ pagination.per_page) in
        elim (find pagination.per_page skip (sort_aggregate pagination.sort)
          (projection_aggregate pagination.fields) filter) [
            | inl err ↦ (inl err, pagination)
            | inr rows ↦ elim (count filter) [
              | inl err ↦ (inl err, pagination)
              | inr n ↦ (inr rows, set_total_items n pagination)
            ]
          ]
