-- ===== src/Paginate/WellFormed.antt =====
-- What holds of every parsed pagination.
use clean_architect.Common.Int.{ℤ, is_pos}
use clean_architect.Paginate.{
  Filter, Sort, Pagination, Values, is_valid_filter_condition, is_valid_sort_arrange, positive_or,
  positive_param, set_last, add_value, add_values, set_arrange, new_sort, add_sorts, set_condition,
  new_filter, add_filters, is_injecting, is_reserved, visit, visit_all, parse_from_request,
  sort_param_name,
}
use clean_architect.Common.{
  ◌≡◌, refl, inl, inr, Bool, true, false, Option, none, some, List, [], ◌∷◌, arith, Bool-cases,
  ◌==◌, nat_eq, All, All-append, Text, txt, text_beq, text_eq,
}

-- A sorting is by a field that is no direction, in a direction.
abbrev pub IsSorting : Sort → Type 0
IsSorting s = (is_valid_sort_arrange s.field ≡ false) × (is_valid_sort_arrange s.arrange ≡ true)

-- A filter's key passed the three tests, its value is no condition, and its condition is one.
pub record IsFilter (f : Filter) : Type 0 where
  pub clean : is_injecting f.key ≡ false
  pub unreserved : is_reserved f.key ≡ false
  pub unsorted : (f.key == sort_param_name) ≡ false
  pub value : is_valid_filter_condition f.value ≡ false
  pub condition : is_valid_filter_condition f.condition ≡ true

module _ {ℓ} {A : Type ℓ} (modifies : Text → Bool) (modify : Text → A → A) (item : Text → A) where
  module _ (P : A → Type 0) (kept : (v : Text) (a : A) → modifies v ≡ true → P a → P (modify v a))
      (made : (v : Text) → modifies v ≡ false → P (item v)) where
    set_last-All :
        (v : Text) (items : List A)
        → modifies v ≡ true
        → All P items
        → All P (set_last modifies modify item v items)
    unfolding set_last
    set_last-All v [] m h = h
    set_last-All v (a ∷ []) m h = (kept v a m h.0, tt)
    set_last-All v (a ∷ b ∷ items) m h = (h.0, set_last-All v (b ∷ items) m h.1)

    add_value-All :
        (items : List A) (v : Text) → All P items → All P (add_value modifies modify item items v)
    unfolding add_value
    add_value-All items v h = elim (Bool-cases (modifies v)) [
      | inl m ↦ rw m (set_last-All v items m h)
      | inr m ↦ rw m (All-append P items (item v ∷ []) h (made v m, tt))
    ]

    add_values-All :
        (items : List A) (values : List Text)
        → All P items
        → All P (add_values modifies modify item items values)
    unfolding add_values
    add_values-All items [] h = h
    add_values-All items (v ∷ values) h =
        add_values-All (add_value modifies modify item items v) values (add_value-All items v h)

desc_valid : is_valid_sort_arrange (txt "desc") ≡ true
unfolding is_valid_sort_arrange text_beq
desc_valid = refl

eq_valid : is_valid_filter_condition (txt "eq") ≡ true
unfolding is_valid_filter_condition text_beq
eq_valid = refl

add_sorts-All :
    (sort : List Sort) (vs : List Text) → All IsSorting sort → All IsSorting (add_sorts sort vs)
unfolding add_sorts
add_sorts-All =
    add_values-All is_valid_sort_arrange set_arrange new_sort IsSorting (λ v s m h. (h.0, m))
      (λ v m. (m, desc_valid))

module _ (query : Text) (clean : is_injecting query ≡ false)
    (unreserved : is_reserved query ≡ false) (unsorted : (query == sort_param_name) ≡ false) where
  add_filters-All :
      (filters : List Filter) (vs : List Text)
      → All IsFilter filters
      → All IsFilter (add_filters query filters vs)
  unfolding add_filters
  add_filters-All =
      add_values-All is_valid_filter_condition set_condition (new_filter query) IsFilter
        (λ v f m h. record {
          clean = h.clean;
          unreserved = h.unreserved;
          unsorted = h.unsorted;
          value = h.value;
          condition = m;
        })
        (λ v m. record {
          clean = clean;
          unreserved = unreserved;
          unsorted = unsorted;
          value = m;
          condition = eq_valid;
        })

abbrev AllFound : List Sort × List Filter → Type 0
AllFound (sort, filters) = All IsSorting sort × All IsFilter filters

visit-AllFound :
    (sort : List Sort) (filters : List Filter) (query : Text) (vs : List Text)
    → All IsSorting sort
    → All IsFilter filters
    → AllFound (visit (sort, filters) (query, vs))
unfolding visit
visit-AllFound sort filters query vs h k = elim (Bool-cases (is_injecting query)) [
  | inl a ↦ rw a (h, k)
  | inr a ↦ elim (Bool-cases (is_reserved query)) [
    | inl b ↦ rw (a, b) (h, k)
    | inr b ↦ elim (Bool-cases (query == sort_param_name)) [
      | inl c ↦ rw (a, b, c) (add_sorts-All sort vs h, k)
      | inr c ↦ rw (a, b, c) (h, add_filters-All query a b c filters vs k)
    ]
  ]
]

visit_all-AllFound :
    (sort : List Sort) (filters : List Filter) (queries : Values)
    → All IsSorting sort
    → All IsFilter filters
    → AllFound (visit_all (sort, filters) queries)
unfolding visit_all
visit_all-AllFound sort filters [] h k = (h, k)
visit_all-AllFound sort filters ((query, vs) ∷ queries) h k =
    let r = visit-AllFound sort filters query vs h k in
    let (sort', filters') = visit (sort, filters) (query, vs) in
    visit_all-AllFound sort' filters' queries r.0 r.1

positive_or_pos : (d : ℤ) (o : Option ℤ) → is_pos d ≡ true → is_pos (positive_or d o) ≡ true
positive_or_pos d none h = h
positive_or_pos d (some n) h = ground arith

positive_param_pos :
    (name : Text) (d : ℤ) (queries : Values)
    → is_pos d ≡ true
    → is_pos (positive_param name d queries) ≡ true
unfolding positive_param
positive_param_pos name d queries h = grind (arith, positive_or_pos)

pub record IsWellFormed (p : Pagination) : Type 0 where
  pub page : is_pos p.page ≡ true
  pub per_page : is_pos p.per_page ≡ true
  pub sort : All IsSorting p.sort
  pub filters : All IsFilter p.filters

-- Whatever the query of the request and whatever the order in which its map is visited: `page` and
-- `per_page` are positive; every sorting has a field that is no direction and a direction that is
-- `asc` or `desc`; every filter has one of the nine conditions, a value that is none of them, and a
-- key with no space and no semicolon that is not `page`, `per_page`, `fields` or `sort`.
pub parse_from_request-IsWellFormed : (queries : Values) → IsWellFormed (parse_from_request queries)
unfolding parse_from_request is_pos
parse_from_request-IsWellFormed queries =
    let r = visit_all-AllFound [] [] queries tt tt in
    record {
      page = positive_param_pos _ _ queries refl;
      per_page = positive_param_pos _ _ queries refl;
      sort = r.0;
      filters = r.1;
    }
