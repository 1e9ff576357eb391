-- ===== src/Paginate/Order.antt =====
-- The order in which Go visits the map of the query.
use clean_architect.Common.{
  ◌∙◌, ◌==◌, true, ◌≡◌, refl, sym, inl, inr, Bool, false, List, [], ◌∷◌, ◌++◌, append-nil,
  append_assoc, arith, Bool-cases, nat_eq, concat_map, All, Text, text_eq,
}
use clean_architect.Paginate.{
  sort_param_name, is_reserved, is_injecting, Filter, Sort, Values, is_valid_filter_condition,
  is_valid_sort_arrange, set_last, add_value, add_values, set_arrange, new_sort, set_condition,
  new_filter, visit, visit_all, parse_from_request,
}
use mathlib.Core.List.{Permᴰ}
use mathlib.Core.Path.{subst}
use mathlib.Core.List.Permᴰ

abbrev IsFull {ℓ} : {A : Type ℓ} → List A → Type 0
IsFull [] = ⊥
IsFull (a ∷ items) = Unit

module _ {ℓ} {A : Type ℓ} (modifies : Text → Bool) (modify : Text → A → A) (item : Text → A) where
  -- The first value of an entry appends an item.
  abbrev pub StartsItem : List Text → Type 0
  StartsItem [] = Unit
  StartsItem (v ∷ values) = modifies v ≡ false

  set_last-append :
      (v : Text) (xs ys : List A)
      → IsFull ys
      → set_last modifies modify item v (xs ++ ys) ≡ xs ++ set_last modifies modify item v ys
  unfolding set_last
  set_last-append v [] ys h = refl
  set_last-append v (x ∷ []) (y ∷ ys) h = refl
  set_last-append v (x ∷ x' ∷ xs) (y ∷ ys) h = rw (set_last-append v (x' ∷ xs) (y ∷ ys) h)
  set_last-append v (x ∷ xs) [] h = absurd h

  set_last-IsFull :
      (v : Text) (ys : List A) → IsFull ys → IsFull (set_last modifies modify item v ys)
  unfolding set_last
  set_last-IsFull v (y ∷ []) h = tt
  set_last-IsFull v (y ∷ y' ∷ ys) h = tt
  set_last-IsFull v [] h = h

  append-IsFull : (ys : List A) (a : A) → IsFull (ys ++ (a ∷ []))
  append-IsFull [] a = tt
  append-IsFull (y ∷ ys) a = tt

  add_values-append :
      (xs ys : List A) (values : List Text)
      → IsFull ys
      → add_values modifies modify item (xs ++ ys) values
        ≡ xs ++ add_values modifies modify item ys values
  unfolding add_values
  add_values-append xs ys [] h = refl
  add_values-append xs ys (v ∷ values) h = elim (Bool-cases (modifies v)) [
    | inl m ↦
        rw (m, add_value, set_last-append v xs ys h)
          (add_values-append xs (set_last modifies modify item v ys) values
            (set_last-IsFull v ys h))
    | inr m ↦
        rw (m, add_value, append_assoc)
          (add_values-append xs (ys ++ (item v ∷ [])) values (append-IsFull ys (item v)))
  ]

  add_values_of_StartsItem :
      (xs : List A) (values : List Text)
      → StartsItem values
      → add_values modifies modify item xs values ≡ xs ++ add_values modifies modify item [] values
  unfolding add_values
  add_values_of_StartsItem xs [] h = sym (append-nil xs)
  add_values_of_StartsItem xs (v ∷ values) h =
      rw (h, add_value) (add_values-append xs (item v ∷ []) values tt)

-- The sortings and the filters that one entry of the query adds by itself.
abbrev entry_sorts : Text × List Text → List Sort
entry_sorts entry = (visit ([], []) entry).0

abbrev entry_filters : Text × List Text → List Filter
entry_filters entry = (visit ([], []) entry).1

-- No entry begins with a direction or a condition, which would change an item of another entry.
abbrev pub IsPlain : Text × List Text → Type 0
IsPlain (query, values) =
    StartsItem is_valid_sort_arrange set_arrange new_sort values
    × StartsItem is_valid_filter_condition set_condition (new_filter query) values

visit-append :
    (sort : List Sort) (filters : List Filter) (entry : Text × List Text)
    → IsPlain entry
    → visit (sort, filters) entry ≡ (sort ++ entry_sorts entry, filters ++ entry_filters entry)
unfolding visit
visit-append sort filters (query, values) h = ground (
  arith,
  append-nil sort,
  append-nil filters,
  add_values_of_StartsItem is_valid_sort_arrange set_arrange new_sort sort values h.0,
  add_values_of_StartsItem is_valid_filter_condition set_condition (new_filter query) filters values
      h.1,
)

visit_all-append :
    (sort : List Sort) (filters : List Filter) (queries : Values)
    → All IsPlain queries
    → visit_all (sort, filters) queries
      ≡ (sort ++ concat_map entry_sorts queries, filters ++ concat_map entry_filters queries)
unfolding visit_all
visit_all-append sort filters [] h = rw (append-nil, append-nil)
visit_all-append sort filters (entry ∷ queries) h = rw (
  visit-append sort filters entry h.0,
  visit_all-append (sort ++ entry_sorts entry) (filters ++ entry_filters entry) queries h.1,
  append_assoc,
  append_assoc,
)

swap_blocks {ℓ} : {B : Type ℓ} (xs ys zs : List B) → Permᴰ (xs ++ (ys ++ zs)) (ys ++ (xs ++ zs))
swap_blocks xs ys zs =
    rw (← append_assoc xs ys zs, ← append_assoc ys xs zs)
      (Permᴰ.append_right zs (Permᴰ.append_comm xs ys))

concat_map-perm {ℓ κ} :
    {A : Type ℓ} {B : Type κ} (f : A → List B) {xs ys : List A}
    → Permᴰ xs ys
    → Permᴰ (concat_map f xs) (concat_map f ys)
concat_map-perm f Permᴰ.nil = Permᴰ.nil
concat_map-perm f (Permᴰ.cons {b = b} e p) = rw e (Permᴰ.append_left (f b) (concat_map-perm f p))
concat_map-perm f (Permᴰ.swap {a' = a'} {b' = b'} {l = l} e e') =
    rw (e, e') (swap_blocks (f b') (f a') (concat_map f l))
concat_map-perm f (Permᴰ.trans p q) = Permᴰ.trans (concat_map-perm f p) (concat_map-perm f q)

All-perm {ℓ κ} : {A : Type ℓ} (P : A → Type κ) {xs ys : List A} → Permᴰ xs ys → All P xs → All P ys
All-perm P Permᴰ.nil h = h
All-perm P (Permᴰ.cons e p) h = (subst P e h.0, All-perm P p h.1)
All-perm P (Permᴰ.swap e e') h = (subst P e' h.1.0, (subst P e h.0, h.1.1))
All-perm P (Permᴰ.trans p q) h = All-perm P q (All-perm P p h)

-- Two visits of one query in different orders, where no entry begins with a direction or a
-- condition: the same sortings and the same filters are found, each as often, up to their order.
pub parse_from_request-perm :
    (queries queries' : Values)
    → Permᴰ queries queries'
    → All IsPlain queries
    → Permᴰ (parse_from_request queries).sort (parse_from_request queries').sort
      × Permᴰ (parse_from_request queries).filters (parse_from_request queries').filters
unfolding parse_from_request
parse_from_request-perm queries queries' p h =
    rw (visit_all-append [] [] queries h, visit_all-append [] [] queries' (All-perm IsPlain p h))
      (concat_map-perm entry_sorts p, concat_map-perm entry_filters p)

-- A key under which values become filters.
abbrev pub IsFiltering : Text → Type 0
IsFiltering query =
    (is_injecting query ≡ false)
    × (is_reserved query ≡ false)
    × ((query == sort_param_name) ≡ false)

visit_of_IsFiltering :
    (found : List Sort × List Filter) (query : Text) (values : List Text)
    → IsFiltering query
    → visit found (query, values) ≡ (
      found.0,
      add_values is_valid_filter_condition set_condition (new_filter query) found.1 values,
    )
unfolding visit
visit_of_IsFiltering found query values (a, b, c) = rw (a, b, c)

visit_all_two :
    (found : List Sort × List Filter) (entry entry' : Text × List Text)
    → visit_all found (entry ∷ entry' ∷ []) ≡ visit (visit found entry) entry'
unfolding visit_all
visit_all_two found entry entry' = refl

parsed_filters :
    (queries : Values) → (parse_from_request queries).filters ≡ (visit_all ([], []) queries).1
unfolding parse_from_request
parsed_filters queries = refl

visit_two :
    (q r : Text) (vs ws : List Text)
    → IsFiltering q
    → IsFiltering r
    → (visit_all ([], []) ((q, vs) ∷ (r, ws) ∷ [])).1
      ≡ add_values is_valid_filter_condition set_condition
          (new_filter r)
          (add_values is_valid_filter_condition set_condition (new_filter q) [] vs)
          ws
visit_two q r vs ws h k =
    rw (visit_all_two, visit_of_IsFiltering ([], []) q vs h) (rw (visit_of_IsFiltering _ r ws k))

-- For two keys `a` and `b` under which values become filters: a condition `c` that stands before the
-- first value of `b` is given to the filter of `a` if the map is visited with `a` first, and is lost
-- if it is visited with `b` first.
pub leading_condition :
    (a b c v w : Text)
    → IsFiltering a
    → IsFiltering b
    → is_valid_filter_condition c ≡ true
    → is_valid_filter_condition v ≡ false
    → is_valid_filter_condition w ≡ false
    → ((parse_from_request ((a, v ∷ []) ∷ (b, c ∷ w ∷ []) ∷ [])).filters
        ≡ record { key = a; value = v; condition = c } ∷ new_filter b w ∷ [])
      × ((parse_from_request ((b, c ∷ w ∷ []) ∷ (a, v ∷ []) ∷ [])).filters
          ≡ new_filter b w ∷ new_filter a v ∷ [])
unfolding add_values
leading_condition a b c v w ha hb h p q = (
  parsed_filters _ ∙ (visit_two a b (v ∷ []) (c ∷ w ∷ []) ha hb ∙ rw (p, h, q)),
  parsed_filters _ ∙ (visit_two b a (c ∷ w ∷ []) (v ∷ []) hb ha ∙ rw (h, q, p)),
)
