-- ===== src/Rpc/Page.antt =====
-- paginate and buildPage of rpc/server_routes.go.
pub mod Window
pub mod Cover
pub mod Totals
pub mod Bounds
use canopy_rpc_mock.Base.{
  ℕ, suc, ◌-◌, Bool, true, false, String, Option, none, some, List, [], ◌∷◌, if◌then◌else◌, Result,
  ok, fault, slice_out_of_range, ◌>>=◌, length, take, drop, ℤ, pos, negsuc, ltb_ℤ, ◌+ℤ◌, ◌-ℤ◌, ◌*ℤ◌,
  is_positive, leb, pos_part, ◌||◌,
}
use canopy_rpc_mock.Gen.Runtime.{Runtime}

-- lib.PageParams
pub record PageParams : Type 0 where
  pub page_number : ℤ
  pub per_page : ℤ

-- The three tests at the head of paginate.
unfoldable pub normalize : ℤ → ℤ → PageParams
normalize page_number per_page =
    let per = if ltb_ℤ per_page (pos 0) || ltb_ℤ (pos 0) per_page then per_page else pos 10 in
    record {
      page_number = if is_positive page_number then page_number else pos 1;
      per_page = if ltb_ℤ (pos 5000) per then pos 5000 else per;
    }

-- items[start:end]; the ends that paginate passes are at most the length.
unfoldable pub slice {ℓ} : {A : Type ℓ} → List A → ℤ → ℤ → Result (List A)
slice items (pos i) (pos j) =
    if leb i j then ok (take (j - i) (drop i items)) else fault slice_out_of_range
slice items (pos i) (negsuc j) = fault slice_out_of_range
slice items (negsuc i) (pos j) = fault slice_out_of_range
slice items (negsuc i) (negsuc j) = fault slice_out_of_range

-- if x > total { x = total }
abbrev pub at_most : ℤ → ℤ → ℤ
at_most x total = if ltb_ℤ total x then total else x

-- items[start:end], both ends cut to the length
unfoldable pub window {ℓ} : {A : Type ℓ} → List A → ℤ → ℤ → Result (List A)
unfolding slice
window items from per_page =
    let total = pos (length items) in
    let start = at_most from total in slice items start (at_most (start +ℤ per_page) total)

unfoldable pub page_of {ℓ} : {A : Type ℓ} → List A → PageParams → Result (List A × PageParams × ℤ)
page_of items params = do
  page ← window items ((params.page_number -ℤ pos 1) *ℤ params.per_page) params.per_page
  ok (page, params, pos (length items))

unfoldable pub paginate {ℓ} : {A : Type ℓ} → List A → ℤ → ℤ → Result (List A × PageParams × ℤ)
paginate items page_number per_page = page_of items (normalize page_number per_page)

-- lib.Page
pub record Page {ℓ} (A : Type ℓ) : Type ℓ where
  pub params : PageParams
  pub results : List A
  pub type_name : String
  pub count : ℕ
  pub total_pages : ℤ
  pub total_count : ℤ

-- results.(interface{ Len() int }), and what is counted where the assertion fails
unfoldable pub count_of {ℓ} : {A : Type ℓ} → Option (List A → ℕ) → List A → ℕ
count_of none results = 0
count_of (some len) results = len results

module _ (rt : Runtime) where
  open rt use {div, of_u64, ceil, to_int}

  -- len is the Len method of the type of the results, where it has one. float64 of an int is
  -- of_u64, since neither int is negative where it is taken.
  unfoldable pub build_page {ℓ} :
      {A : Type ℓ} → Option (List A → ℕ) → List A → PageParams → String → ℤ → Page A
  unfolding count_of
  build_page len results params type_name total = record {
    params = params;
    results = results;
    type_name = type_name;
    count = count_of len results;
    total_pages =
        if is_positive params.per_page
        then to_int (ceil (div (of_u64 (pos_part total)) (of_u64 (pos_part params.per_page))))
        else pos 0;
    total_count = total;
  }
