-- ===== src/Catalog/Pages.antt =====
-- Pagination of the product listing.
use posnet_adapter.Prelude.{
  ℕ, zero, suc, ◌+◌, ◌*◌, ◌≤◌, ◌≡◌, sym, ap, ◌∙◌, String, Bool, Option, none, some, List, [], ◌++◌,
  arith, length, take, drop, take_add, take_all, length-sort_by,
}
use posnet_adapter.Tables.{Product, Scope}
use posnet_adapter.Catalog.{Catalog, list_products, count_products}

zero_mul : (n : ℕ) → zero * n ≡ zero
zero_mul n = omega arith

suc_mul : (k n : ℕ) → suc k * n ≡ k * n + n
suc_mul k n = omega arith

module _ (matches : String → String → Bool) (before : Product → Product → Bool) (scope : Scope)
    (query : Option String) (c : Catalog) where
  abbrev pub listing : List Product
  listing = list_products matches before scope query none 0 c

  -- The first `k` pages of `n` products, one after another.
  abbrev pub pages : ℕ → ℕ → List Product
  pages n zero = []
  pages n (suc k) = pages n k ++ list_products matches before scope query (some n) (k * n) c

  pages_prefix : (n k : ℕ) → pages n k ≡ take (k * n) listing
  unfolding list_products
  pages_prefix n zero = ap (λ m. take m listing) (sym (zero_mul n))
  pages_prefix n (suc k) =
      ap (λ xs. xs ++ take n (drop (k * n) listing)) (pages_prefix n k)
      ∙ sym (take_add (k * n) n listing)
      ∙ ap (λ m. take m listing) (sym (suc_mul k n))

  count_lem : length listing ≡ count_products matches scope query c
  unfolding list_products count_products
  count_lem = length-sort_by before _

  -- As many pages as the count asks for show every product that the query finds, each once and in
  -- the order of the listing.
  pub pages_lem : (n k : ℕ) → count_products matches scope query c ≤ k * n → pages n k ≡ listing
  pages_lem n k enough =
      pages_prefix n k ∙ take_all (k * n) listing (omega (arith, count_lem, enough))
