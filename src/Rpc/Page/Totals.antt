-- ===== src/Rpc/Page/Totals.antt =====
-- The totals of buildPage against the pages that paginate gives.
use native.Mathlib.Nat.{lt-div-mul-add, div-le_self}
use canopy_rpc_mock.Base.{
  ℕ, ◌+◌, ◌-◌, ◌*◌, ◌/◌, ◌^◌, ◌≤◌, ◌<◌, ◌≡◌, String, Option, List, arith, ok, length, pos,
}
use canopy_rpc_mock.Gen.Runtime.{Runtime, CeilDivExact}
use canopy_rpc_mock.Rpc.Page.{build_page}
use canopy_rpc_mock.Rpc.Page.Cover.{read_pages, read_pages-all}

ceil_div-covers : (m q : ℕ) → 1 ≤ q → m ≤ (m + q - 1) / q * q
ceil_div-covers m q h = omega (arith, lt-div-mul-add {a = m + q - 1} {b = q} h)

-- For a list of fewer than 2 ^ 49 items and a page size from 1 to 5000, the total of pages that
-- buildPage reports is the number of items divided by the size, rounded up, and a client that reads
-- that many pages from page 1 on gets exactly the list, if dividing floats and rounding up is exact.
pub total_pages-enough {ℓ} :
    {A : Type ℓ} (rt : Runtime) (len : Option (List A → ℕ)) (items page : List A) (p q : ℕ)
    (type_name : String)
    → CeilDivExact rt
    → 1 ≤ q
    → q ≤ 5000
    → length items < 2 ^ 49
    → let built =
        build_page rt len page
          (record { page_number = pos p; per_page = pos q })
          type_name
          (pos (length items)) in
      (built.total_pages ≡ pos ((length items + q - 1) / q))
      × (read_pages items q ((length items + q - 1) / q) 1 ≡ ok items)
unfolding build_page
total_pages-enough rt len items page p q type_name exact hq kq hl =
    let few : (length items + q - 1) / q ≤ length items + q - 1 =
      div-le_self (length items + q - 1) q in
    (
      ground (arith, exact (length items) q (omega arith) (omega arith) (omega arith)),
      read_pages-all items q ((length items + q - 1) / q) hq kq (omega arith)
          (ceil_div-covers (length items) q hq),
    )
