-- ===== src/Rpc/Page/Bounds.antt =====
-- The page sizes and numbers at which paginate cannot panic.
use canopy_rpc_mock.Base.{
  ℕ, ◌≤◌, ◌<◌, ◌^◌, ◌≡◌, sym, ap, ◌∙◌, List, arith, Returns, ltb, ◌==◌, if◌then◌else◌, is_positive,
  ℤ, pos, negsuc, pos_part,
}
use canopy_rpc_mock.Rpc.Page.{normalize, page_of, paginate}
use canopy_rpc_mock.Rpc.Page.Window.{paginate-window, normalize_id}

-- The page number and the page size that those of a request stand for.
abbrev page_used : ℤ → ℕ
page_used p = if is_positive p then pos_part p else 1

abbrev size_used : ℕ → ℕ
size_used q = if q == 0 then 10 else if ltb 5000 q then 5000 else q

normalize_lem :
    (p : ℤ) (q : ℕ)
    → normalize p (pos q) ≡ record { page_number = pos (page_used p); per_page = pos (size_used q) }
unfolding normalize
normalize_lem (pos p) q = ground arith
normalize_lem (negsuc p) q = ground arith

page_used-bounds : (p : ℤ) → pos_part p < 2 ^ 50 → (1 ≤ page_used p) × (page_used p < 2 ^ 50)
page_used-bounds (pos p) h = ground arith
page_used-bounds (negsuc p) h = omega arith

size_used-bounds : (q : ℕ) → (1 ≤ size_used q) × (size_used q ≤ 5000)
size_used-bounds q = ground arith

pub paginate-Returns {ℓ} :
    {A : Type ℓ} (items : List A) (p : ℤ) (q : ℕ)
    → pos_part p < 2 ^ 50
    → Returns (paginate items p (pos q))
unfolding paginate
paginate-Returns items p q hp =
    let (lp, kp) = page_used-bounds p hp in
    let (lq, kq) = size_used-bounds q in
    (
      _,
      ap (page_of items)
            (normalize_lem p q ∙ sym (normalize_id (page_used p) (size_used q) lp lq kq))
          ∙ paginate-window items (page_used p) (size_used q) lp lq kq kp,
    )
