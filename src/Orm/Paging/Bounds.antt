-- ===== src/Orm/Paging/Bounds.antt =====
-- The bounds on page numbers and page sizes, and the number of pages.
use native.Mathlib.Nat.{div-mul-le_self, lt-div-mul-add, mul-le-mul_left}
use framework_kyrux.Prelude.{
  ℕ, suc, ◌+◌, ◌-◌, ◌*◌, ◌/◌, ◌^◌, ltb, Bool-cases, ◌≤◌, ◌<◌, ◌≡◌, ◌≢◌, true, false, arith,
  if◌then◌else◌, ◌⊎◌, inl, inr, ◌==◌, zero, refl,
}
use framework_kyrux.Orm.Paging.{
  max_page_size, max_int, int64, int_ltb, offset_of, clamp_size, clamp_page, clamp_paging, pages_of,
}

clamp_size_bounds : (size : ℕ) → (1 ≤ clamp_size size) × (clamp_size size ≤ max_page_size)
clamp_size_bounds size = ground arith

-- For a size from 2 on nothing wraps around.
max_page_fits : (size : ℕ) → 2 ≤ size → max_int / size + 1 ≤ max_int
max_page_fits size h =
    omega (arith, div-mul-le_self max_int size, mul-le-mul_left (max_int / size) h)

offset_plain :
    (page size : ℕ)
    → 1 ≤ page
    → page ≤ max_int
    → (page - 1) * size ≤ max_int
    → offset_of page size ≡ (page - 1) * size
offset_plain page size first fits small =
    let less : int64 (page + 2 ^ 64 - 1) ≡ page - 1 = omega arith in rw less (omega (arith, small))

-- Between ints that are not negative, the order is that of the numbers.
pub int_ltb-plain : (a b : ℕ) → a ≤ max_int → b ≤ max_int → int_ltb a b ≡ ltb a b
int_ltb-plain a b h k =
    let a' : int64 (a + 2 ^ 63) ≡ a + 2 ^ 63 = omega arith in
    let b' : int64 (b + 2 ^ 63) ≡ b + 2 ^ 63 = omega arith in
    rw (a', b')
      (elim (Bool-cases (ltb a b)) [ inl e ↦ rw e (ground arith) | inr e ↦ rw e (ground arith) ])

clamped :
    (page most : ℕ)
    → page ≤ max_int
    → most ≤ max_int
    → (if int_ltb (int64 most) page then int64 most else page)
      ≡ (if ltb most page then most else page)
clamped page most h k =
    let same : int64 most ≡ most = omega arith in rw (same, int_ltb-plain most page k h) refl

clamp_page_bounds :
    (page size : ℕ)
    → 2 ≤ size
    → page ≤ max_int
    → (1 ≤ clamp_page page size)
      × (clamp_page page size ≤ max_int)
      × ((clamp_page page size - 1) * size ≤ max_int)
      × ((page < 1) ⊎ (max_int / size + 1 < page) ⊎ (clamp_page page size ≡ page))
clamp_page_bounds page size h fits =
    let few = max_page_fits size h in
    let low : (if ltb page 1 then 1 else page) ≤ max_int = ground arith in
    rw (clamped (if ltb page 1 then 1 else page) (max_int / size + 1) low few)
      (ground arith, ground (arith, few), grind arith, ground arith)

-- The page that is left for a page and a size from 2 on.
pub record IsClamped (page p s : ℕ) : Type 0 where
  pub first : 1 ≤ p
  pub fits : p ≤ max_int
  pub small : (p - 1) * s ≤ max_int
  pub offset_same : offset_of p s ≡ (p - 1) * s
  pub as_asked : (page < 1) ⊎ (max_int / s + 1 < page) ⊎ (p ≡ page)

pub clamp_paging-IsClamped :
    (page size : ℕ)
    → page ≤ max_int
    → size ≢ 1
    → IsClamped page (clamp_paging page size).0 (clamp_paging page size).1
      × (2 ≤ (clamp_paging page size).1)
unfolding clamp_paging
clamp_paging-IsClamped page size fits several =
    let two : 2 ≤ clamp_size size = ground arith in
    let (first, least, small, asked) = clamp_page_bounds page (clamp_size size) two fits in
    (
      record {
        first = first;
        fits = least;
        small = small;
        offset_same = offset_plain _ _ first least small;
        as_asked = asked;
      },
      two,
    )

-- With a size of 1 every page becomes the least int, whose offset is the largest one.
pub page_of_one :
    (page : ℕ)
    → page ≤ max_int
    → ((clamp_paging page 1).0 ≡ 2 ^ 63)
      × ((clamp_paging page 1).1 ≡ 1)
      × (offset_of (clamp_paging page 1).0 1 ≡ max_int)
unfolding clamp_paging
page_of_one page fits =
    let least : clamp_page page 1 ≡ 2 ^ 63 = ground arith in (least, refl, rw least refl)

-- Whatever page, up to the largest int, and size are asked for, the size lies between 1 and 1000,
-- and is left as it is if it lay there. If it is not 1, the page is at least 1, its offset is
-- `(page - 1) * size` without a wrap-around and does not exceed the largest int, and a page from 1
-- on whose offset does not exceed it is left as it is. If the size is 1, the largest page wraps
-- around: every page becomes the least int, and its offset the largest one.
pub clamp_paging_bounds :
    (page size : ℕ)
    → page ≤ max_int
    → (1 ≤ (clamp_paging page size).1)
      × ((clamp_paging page size).1 ≤ max_page_size)
      × ((size < 1) ⊎ (max_page_size < size) ⊎ ((clamp_paging page size).1 ≡ size))
      × (((size ≢ 1) × IsClamped page (clamp_paging page size).0 (clamp_paging page size).1)
          ⊎ ((size ≡ 1)
              × ((clamp_paging page size).0 ≡ 2 ^ 63)
              × (offset_of (clamp_paging page size).0 1 ≡ max_int)))
unfolding clamp_paging
clamp_paging_bounds page size fits =
    let (low, high) = clamp_size_bounds size in
    let kept : (size < 1) ⊎ (max_page_size < size) ⊎ (clamp_size size ≡ size) = ground arith in
    (low, high, kept, split (Bool-cases (size == 1)))
  where
    split :
        ((size == 1) ≡ true) ⊎ ((size == 1) ≡ false)
        → ((size ≢ 1) × IsClamped page (clamp_paging page size).0 (clamp_paging page size).1)
          ⊎ ((size ≡ 1)
              × ((clamp_paging page size).0 ≡ 2 ^ 63)
              × (offset_of (clamp_paging page size).0 1 ≡ max_int))
    split (inr e) =
        let several : size ≢ 1 = ground arith in
        inl (several, (clamp_paging-IsClamped page size fits several).0)
    split (inl e) =
        let one : size ≡ 1 = ground arith in
        let (least, same, far) = page_of_one page fits in inr (one, rw one least, rw one far)

-- The same for a quotient `n`, given what division by the size says of it.
quotient_bounds :
    (n total size : ℕ)
    → 1 ≤ size
    → n * size ≤ total + size - 1
    → total + size - 1 < n * size + size
    → (1 ≤ (if n == 0 then 1 else n))
      × (total ≤ (if n == 0 then 1 else n) * size)
      × (((if n == 0 then 1 else n) ≡ 1) ⊎ (((if n == 0 then 1 else n) - 1) * size < total))
quotient_bounds zero total size h low high = (omega arith, omega arith, inl refl)
quotient_bounds (suc n) total size h low high =
    let several : (suc n == 0) ≡ false = ground arith in
    let less : suc n - 1 ≡ n = omega arith in
    rw several (omega arith, omega arith, inr (rw less (omega arith)))

-- For a positive size, the number of pages holds all rows, and one page less does not, unless
-- there is one page only.
pub pages_of_bounds :
    (total size : ℕ)
    → 1 ≤ size
    → (1 ≤ pages_of total size)
      × (total ≤ pages_of total size * size)
      × ((pages_of total size ≡ 1) ⊎ ((pages_of total size - 1) * size < total))
unfolding pages_of
pages_of_bounds total size h =
    quotient_bounds ((total + size - 1) / size) total size h
      (div-mul-le_self (total + size - 1) size) (lt-div-mul-add h)
