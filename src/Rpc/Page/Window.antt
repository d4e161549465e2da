-- ===== src/Rpc/Page/Window.antt =====
-- What paginate returns, and when it panics.
use canopy_rpc_mock.Base.{
  ℕ, zero, suc, ◌+◌, ◌-◌, ◌*◌, ◌^◌, ◌≤◌, ◌<◌, ◌≡◌, refl, sym, ap, ◌∙◌, List, [], ◌∷◌, arith, ok,
  fault, slice_out_of_range, length, take, drop, ℤ, pos, negsuc, +ℤ-pos, -ℤ-pos, *ℤ-pos,
  length-drop, is_positive, false, zero-*ℤ, zero-+ℤ-negsuc,
}
use native.Mathlib.Decide.{dec_lt}
use canopy_rpc_mock.Rpc.Page.{normalize, slice, window, page_of, at_most, paginate}

pub drop-length {ℓ} : {A : Type ℓ} (n : ℕ) (xs : List A) → length xs ≤ n → drop n xs ≡ []
drop-length zero [] h = refl
drop-length zero (x ∷ xs) h = elim h [ ]
drop-length (suc n) [] h = refl
drop-length (suc n) (x ∷ xs) h = drop-length n xs (omega arith)

take_all {ℓ} : {A : Type ℓ} (n : ℕ) (xs : List A) → length xs ≤ n → take n xs ≡ xs
take_all zero [] h = refl
take_all zero (x ∷ xs) h = elim h [ ]
take_all (suc n) [] h = refl
take_all (suc n) (x ∷ xs) h = ap (λ ys. x ∷ ys) (take_all n xs (omega arith))

-- The slice between the two clamped ends is the window of the list.
take_clamped {ℓ} :
    {A : Type ℓ} (s q : ℕ) (xs : List A)
    → s ≤ length xs
    → length xs < s + q
    → take (length xs - s) (drop s xs) ≡ take q (drop s xs)
take_clamped s q xs h k =
    take_all (length xs - s) (drop s xs) (omega (arith, length-drop s xs))
    ∙ sym (take_all q (drop s xs) (omega (arith, length-drop s xs)))

pub normalize_id :
    (p q : ℕ)
    → 1 ≤ p
    → 1 ≤ q
    → q ≤ 5000
    → normalize (pos p) (pos q) ≡ record { page_number = pos p; per_page = pos q }
unfolding normalize
normalize_id p q hp hq kq = ground arith

normalize_big : (q : ℕ) → 5000 < q → normalize (pos 1) (pos q) ≡ normalize (pos 1) (pos 5000)
unfolding normalize
normalize_big q h = ground arith

normalize_negative :
    (p : ℤ) (q : ℕ)
    → is_positive p ≡ false
    → normalize p (negsuc q) ≡ record { page_number = pos 1; per_page = negsuc q }
unfolding normalize
normalize_negative p q h = ground arith

at_most_negsuc : (q b : ℕ) → at_most (negsuc q) (pos b) ≡ negsuc q
at_most_negsuc q b = ground arith

at_most_le : (a b : ℕ) → a ≤ b → at_most (pos a) (pos b) ≡ pos a
at_most_le a b h = ground arith

at_most_ge : (a b : ℕ) → b ≤ a → at_most (pos a) (pos b) ≡ pos b
at_most_ge a b h = ground arith

module _ {ℓ} {A : Type ℓ} (items : List A) where
  slice_lem : (i j : ℕ) → i ≤ j → slice items (pos i) (pos j) ≡ ok (take (j - i) (drop i items))
  unfolding slice
  slice_lem i j h = ground arith

  past_end :
      (s q : ℕ)
      → length items < s
      → take (length items - length items) (drop (length items) items) ≡ take q (drop s items)
  past_end s q h =
      rw (drop-length (length items) items (omega arith), drop-length s items (omega arith))
        (take_all (length items - length items) [] (omega arith)
          ∙ sym (take_all q [] (omega arith)))

  window_lem :
      (s q : ℕ)
      → s + 5000 < 2 ^ 63
      → q ≤ 5000
      → window items (pos s) (pos q) ≡ ok (take q (drop s items))
  unfolding window
  window_lem s q hs hq = elim (dec_lt (length items) s) [
    | yes past ↦
        rw
          (
            at_most_ge s (length items) (omega arith),
            +ℤ-pos (length items) q (omega arith),
            at_most_ge (length items + q) (length items) (omega arith),
            slice_lem (length items) (length items) (omega arith),
          )
          (ap ok (past_end s q past))
    | no in_range ↦ elim (dec_lt (length items) (s + q)) [
      | yes cut ↦
          rw
            (
              at_most_le s (length items) (omega arith),
              +ℤ-pos s q (omega arith),
              at_most_ge (s + q) (length items) (omega arith),
              slice_lem s (length items) (omega arith),
            )
            (ap ok (take_clamped s q items (omega arith) cut))
      | no whole ↦
          rw
            (
              at_most_le s (length items) (omega arith),
              +ℤ-pos s q (omega arith),
              at_most_le (s + q) (length items) (omega arith),
              slice_lem s (s + q) (omega arith),
            )
            (ap (λ n. ok (take n (drop s items))) (omega arith))
    ]
  ]

  -- For a page number p from 1 to 2 ^ 50 - 1 and a page size q from 1 to 5000, paginate returns the
  -- at most q items from position (p - 1) q on, p and q as the parameters, and the number of items as
  -- the total.
  pub paginate-window :
      (p q : ℕ)
      → 1 ≤ p
      → 1 ≤ q
      → q ≤ 5000
      → p < 2 ^ 50
      → paginate items (pos p) (pos q)
        ≡ ok (
          take q (drop ((p - 1) * q) items),
          record { page_number = pos p; per_page = pos q },
          pos (length items),
        )
  unfolding paginate page_of
  paginate-window p q hp hq kq kp =
      let m : (p - 1) * q ≤ (p - 1) * 5000 = grind arith in
      rw (
        normalize_id p q hp hq kq,
        -ℤ-pos p 1 hp (omega arith),
        *ℤ-pos (p - 1) q (omega arith),
        window_lem ((p - 1) * q) q (omega arith) kq,
      )

  window_negative :
      (q : ℕ) → q < 2 ^ 63 → window items (pos 0) (negsuc q) ≡ fault slice_out_of_range
  unfolding window slice
  window_negative q h =
      rw (at_most_le 0 (length items) (omega arith), zero-+ℤ-negsuc q h, at_most_negsuc)

  -- A page number of 0 or less gives what page 1 gives, for every page size that is not negative;
  -- on page 1 a page size of 0 gives what 10 gives, and one above 5000 what 5000 gives.
  pub paginate_defaults :
      (p : ℤ) (q r : ℕ)
      → is_positive p ≡ false
      → 5000 < r
      → (paginate items p (pos q) ≡ paginate items (pos 1) (pos q))
        × (paginate items (pos 1) (pos 0) ≡ paginate items (pos 1) (pos 10))
        × (paginate items (pos 1) (pos r) ≡ paginate items (pos 1) (pos 5000))
  unfolding paginate normalize
  paginate_defaults p q r h big = (rw h, refl, ap (page_of items) (normalize_big r big))

  -- For a page number of 0 or less and a negative page size of an int, paginate panics on every
  -- list, the empty one included: the slice has a negative end.
  pub paginate_negative_panics :
      (p : ℤ) (q : ℕ)
      → is_positive p ≡ false
      → q < 2 ^ 63
      → paginate items p (negsuc q) ≡ fault slice_out_of_range
  unfolding paginate page_of
  paginate_negative_panics p q h hq = rw (
    normalize_negative p q h,
    -ℤ-pos 1 1 (omega arith) (omega arith),
    zero-*ℤ,
    window_negative q hq,
  )
