-- ===== src/Channels/Rows.antt =====
-- The table of a mock server's dict: a list of rows with a text for a key.
use posnet_adapter.Prelude.{
  String, Option, none, some, List, [], ◌∷◌, ◌++◌, ◌≡◌, refl, false, arith, eq_iff, find?, str_eq,
  if◌then◌else◌, Bool-cases, inl, inr, length,
}

module _ {A : Type 0} (key : A → String) where
  abbrev pub at : String → List A → Option A
  at k rows = find? (λ r. str_eq (key r) k) rows

  -- An assignment to fields of the row under a key.
  abbrev pub alter : String → (A → A) → List A → List A
  alter k f [] = []
  alter k f (r ∷ rows) =
      let rest = alter k f rows in if str_eq (key r) k then f r ∷ rows else r ∷ rest

  abbrev changed : (A → A) → Option A → Option A
  changed f none = none
  changed f (some r) = some (f r)

  module _ (f : A → A) (keeps : (r : A) → key (f r) ≡ key r) where
    -- The row under the key is changed, and every other stays.
    pub at-alter_self : (k : String) (rows : List A) → at k (alter k f rows) ≡ changed f (at k rows)
    at-alter_self k [] = refl
    at-alter_self k (r ∷ rows) = elim (Bool-cases (str_eq (key r) k)) [
      | inl same ↦ rw (same, keeps r, same) refl
      | inr other ↦ rw (other, other) (at-alter_self k rows)
    ]

    pub at-alter_ne :
        (k j : String) (rows : List A) → str_eq k j ≡ false → at j (alter k f rows) ≡ at j rows
    at-alter_ne k j [] ne = refl
    at-alter_ne k j (r ∷ rows) ne = ground (
      arith,
      eq_iff (key r) k,
      eq_iff (key r) j,
      eq_iff k j,
      keeps r,
      eq_iff (key (f r)) j,
      at-alter_ne k j rows ne,
    )

    pub length-alter : (k : String) (rows : List A) → length (alter k f rows) ≡ length rows
    length-alter k [] = refl
    length-alter k (r ∷ rows) = ground (arith, length-alter k rows)

  pub at-append_new :
      (k : String) (rows : List A) (r : A)
      → at k rows ≡ none
      → key r ≡ k
      → at k (rows ++ r ∷ []) ≡ some r
  at-append_new k [] r free own = ground (arith, eq_iff (key r) k, own)
  at-append_new k (x ∷ rows) r free own = elim (Bool-cases (str_eq (key x) k)) [
    | inl same ↦ let t : some x ≡ none = rw same at free in cc
    | inr other ↦ rw other (at-append_new k rows r (rw other at free) own)
  ]
