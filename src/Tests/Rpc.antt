-- ===== src/Tests/Rpc.antt =====
-- Examples for package rpc.
use canopy_rpc_mock.Base.{
  ℕ, ◌≡◌, refl, arith, some, length, List, [], ◌∷◌, ok, fault, slice_out_of_range, pos, negsuc,
}
use canopy_rpc_mock.Rpc.Page.{paginate, build_page}
use canopy_rpc_mock.Rpc.Page.Window.{paginate-window, paginate_negative_panics}
use canopy_rpc_mock.Rpc.Page.Cover.{read_pages, read_pages-all}
use canopy_rpc_mock.Rpc.Page.Totals.{total_pages-enough}
use canopy_rpc_mock.Tests.{toy, toy-CeilDivExact}

abbrev seven : List ℕ
seven = 10 ∷ 20 ∷ 30 ∷ 40 ∷ 50 ∷ 60 ∷ 70 ∷ []

abbrev first_page : List ℕ
first_page = 10 ∷ 20 ∷ 30 ∷ []

-- The last page is shorter.
paginate-window_example :
    paginate seven (pos 3) (pos 3)
    ≡ ok (70 ∷ [], record { page_number = pos 3; per_page = pos 3 }, pos 7)
paginate-window_example =
    paginate-window seven 3 3 (omega arith) (omega arith) (omega arith) (omega arith)

-- perPage is -1.
paginate_negative_panics_example : paginate seven (pos 0) (negsuc 0) ≡ fault slice_out_of_range
paginate_negative_panics_example = paginate_negative_panics seven (pos 0) 0 refl (omega arith)

read_pages-all_example : read_pages seven 3 3 1 ≡ ok seven
read_pages-all_example =
    read_pages-all seven 3 3 (omega arith) (omega arith) (omega arith) (omega arith)

total_pages-enough_example :
    let built =
      build_page toy
        (some length)
        first_page
        (record { page_number = pos 1; per_page = pos 3 })
        "numbers"
        (pos 7) in
    (built.total_pages ≡ pos 3) × (read_pages seven 3 3 1 ≡ ok seven)
total_pages-enough_example =
    total_pages-enough toy (some length) seven first_page 1 3 "numbers" toy-CeilDivExact
      (omega arith) (omega arith) (omega arith)
