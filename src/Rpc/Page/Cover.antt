-- ===== src/Rpc/Page/Cover.antt =====
-- Reading the pages of a list one after the other gives the list.
use native.Mathlib.Omega.{arith}
use mathlib.Core.Path.{ap₂}
use canopy_rpc_mock.Base.{
  ℕ, zero, suc, ◌+◌, ◌-◌, ◌*◌, ◌^◌, ◌≤◌, ◌<◌, ◌≡◌, refl, sym, ap, ◌∙◌, List, [], ◌∷◌, ◌++◌, ok,
  Result, ◌>>=◌, length, take, drop, pos,
}
use canopy_rpc_mock.Rpc.Page.{paginate}
use canopy_rpc_mock.Rpc.Page.Window.{drop-length, paginate-window}

take-append-drop {ℓ} : {A : Type ℓ} (n : ℕ) (xs : List A) → take n xs ++ drop n xs ≡ xs
take-append-drop zero xs = refl
take-append-drop (suc n) [] = refl
take-append-drop (suc n) (x ∷ xs) = ap (λ ys. x ∷ ys) (take-append-drop n xs)

drop-drop {ℓ} : {A : Type ℓ} (s q : ℕ) (xs : List A) → drop (s + q) xs ≡ drop q (drop s xs)
drop-drop zero q xs = let e : zero + q ≡ q = omega arith in rw e
drop-drop (suc s) zero [] = let e : suc s + zero ≡ suc s = omega arith in rw e
drop-drop (suc s) (suc q) [] = let e : suc s + suc q ≡ suc (s + suc q) = omega arith in rw e
drop-drop (suc s) q (x ∷ xs) =
    let e : suc s + q ≡ suc (s + q) = omega arith in rw e (drop-drop s q xs)

module _ {ℓ} {A : Type ℓ} (items : List A) (q : ℕ) where
  -- What a client reads that asks for n pages from page p on.
  abbrev pub read_pages : ℕ → ℕ → Result (List A)
  read_pages zero p = ok []
  read_pages (suc n) p = do
    (page, _, _) ← paginate items (pos p) (pos q)
    rest ← read_pages n (p + 1)
    ok (page ++ rest)

  read_pages-drop :
      (n p : ℕ)
      → 1 ≤ q
      → q ≤ 5000
      → p + 1 + n < 2 ^ 50
      → length items ≤ (p + n) * q
      → read_pages n (p + 1) ≡ ok (drop (p * q) items)
  read_pages-drop zero p hq kq hn cover = ap ok (sym (drop-length (p * q) items (omega arith)))
  read_pages-drop (suc n) p hq kq hn cover =
      rw
        (
          paginate-window items (p + 1) q (omega arith) hq kq (omega arith),
          read_pages-drop n (p + 1) hq kq (omega arith) (grind arith),
        )
        (ap ok (
          ap₂ (λ i j. take q (drop i items) ++ drop j items) at_page next_page
          ∙ rw drop-drop (take-append-drop q (drop (p * q) items))))
    where
      at_page : (p + 1 - 1) * q ≡ p * q
      at_page = ap (λ k. k * q) (omega arith)

      next_page : (p + 1) * q ≡ p * q + q
      next_page = omega arith

  -- For a page size q from 1 to 5000, reading the pages 1 to
  -- n in turn, with n + 1 < 2 ^ 50 and n q at least the number of items, gives the list.
  pub read_pages-all :
      (n : ℕ) → 1 ≤ q → q ≤ 5000 → n + 1 < 2 ^ 50 → length items ≤ n * q → read_pages n 1 ≡ ok items
  read_pages-all n hq kq hn cover =
      let start : 0 * q ≡ 0 = omega arith in
      read_pages-drop n 0 hq kq (omega arith) (grind arith) ∙ ap (λ i. ok (drop i items)) start
