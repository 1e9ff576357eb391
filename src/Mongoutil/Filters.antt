-- ===== src/Mongoutil/Filters.antt =====
-- The documents of the filters, beside the WHERE clause of pkg/sqlutil.
use clean_architect.Paginate.{Filter, filter_in, filter_between}
use clean_architect.Sqlutil.{clause, between_clause, in_clause}
use clean_architect.Mongoutil.{
  Match, match_of, among_match, within_match, aggregate_step, aggregate_all, filter_aggregate,
}
use clean_architect.Common.{
  ◌≡◌, refl, sym, ap, ◌∙◌, inl, inr, Option, none, some, List, [], ◌∷◌, ◌++◌, append-nil,
  append_assoc, arith, Option-cases, nat_eq, concat_map, Text, text_beq_iff, text_eq, split, Dict,
  lookup,
}

module _ {F D : Type 0} (parse_float : Text → Option F) (parse_time : Text → Option D) where
  abbrev with_field : Text → Option (Match F D) → List (Text × Match F D)
  with_field field none = []
  with_field field (some m) = (field, m) ∷ []

  abbrev for_field : Filter → Option Text → List (Text × Match F D)
  for_field filter none = []
  for_field filter (some field) = with_field field (match_of parse_float parse_time filter)

  -- The element that one filter gives, if its key is queryable and the filter is not skipped.
  abbrev pub element : Dict Text Text → Filter → List (Text × Match F D)
  element columns filter = for_field filter (lookup filter.key columns)

  aggregate_step-append :
      (columns : Dict Text Text) (found match : List (Text × Match F D)) (filter : Filter)
      → (aggregate_step parse_float parse_time columns (found, match) filter).0
        ≡ found ++ element columns filter
  unfolding aggregate_step
  aggregate_step-append columns found match filter =
      elim (Option-cases (lookup filter.key columns)) [
        | inl e ↦ rw (e, aggregate_step) (sym (append-nil found))
        | inr (field, e) ↦ elim (Option-cases (match_of parse_float parse_time filter)) [
          | inl k ↦ rw (e, k, aggregate_step) (sym (append-nil found))
          | inr (m, k) ↦ rw (e, k, aggregate_step) refl
        ]
      ]

  -- Whatever the variable `match` holds when the loop comes to a filter.
  aggregate_all-append :
      (columns : Dict Text Text) (found match : List (Text × Match F D)) (filters : List Filter)
      → aggregate_all parse_float parse_time columns (found, match) filters
        ≡ found ++ concat_map (element columns) filters
  unfolding aggregate_all
  aggregate_all-append columns found match [] = sym (append-nil found)
  aggregate_all-append columns found match (filter ∷ filters) =
      let vars = aggregate_step parse_float parse_time columns (found, match) filter in
      aggregate_all-append columns vars.0 vars.1 filters
      ∙ (ap (λ l. l ++ concat_map (element columns) filters)
            (aggregate_step-append columns found match filter)
          ∙ append_assoc found (element columns filter) (concat_map (element columns) filters))

  -- The filter document holds exactly the elements of the filters, in order: none for a key that is
  -- not queryable or a filter that is skipped. The value of the shared variable that an earlier
  -- filter left is never appended again.
  pub filter_aggregate-eq-concat_map :
      (filters : List Filter) (columns : Dict Text Text)
      → filter_aggregate parse_float parse_time filters columns
        ≡ concat_map (element columns) filters
  unfolding filter_aggregate
  filter_aggregate-eq-concat_map [] columns = refl
  filter_aggregate-eq-concat_map (filter ∷ filters) columns =
      aggregate_all-append columns [] [] (filter ∷ filters)

  among_none :
      (field : Text) (vs : List Text)
      → among_match parse_float parse_time vs ≡ none
      → in_clause field vs ≡ none
  unfolding among_match in_clause
  among_none field [] h = refl
  among_none field (v ∷ []) h = refl
  among_none field (v ∷ w ∷ vs) h = cc

  within_none :
      (field : Text) (vs : List Text)
      → within_match parse_float parse_time vs ≡ none
      → between_clause field vs ≡ none
  unfolding within_match between_clause
  within_none field [] h = refl
  within_none field (v ∷ []) h = refl
  within_none field (v ∷ w ∷ vs) h = cc

  -- A filter that MongoDB's document skips is skipped by the WHERE clause too.
  pub match_of-none-clause :
      (field : Text) (filter : Filter)
      → match_of parse_float parse_time filter ≡ none
      → clause field filter ≡ none
  unfolding match_of clause
  match_of-none-clause field filter h = ground (
    arith,
    among_none field (split 44 filter.value),
    within_none field (split 44 filter.value),
    text_beq_iff filter.condition filter_in,
    text_beq_iff filter.condition filter_between,
  )
