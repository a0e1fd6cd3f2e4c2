-- ===== src/Adapter/Signature/Window.antt =====
-- libs/adapter/hmac_verify.py: which signatures pass, and for how long.
use posnet_adapter.Prelude.{
  ℕ, ◌+◌, ◌*◌, ◌<◌, ◌≤◌, String, Bool, true, false, ◌&&◌, ◌||◌, Option, none, some, List, [], ◌∷◌,
  ◌++◌, ◌≡◌, refl, sym, ◌∙◌, if◌then◌else◌, ◌⊎◌, inl, inr, arith, ltb, leb, map, All, Bool-cases,
}
use mathlib.Core.Path.{subst}
use posnet_adapter.Prelude.Int.{ℤ, pos, pos_part, neg_part, ◌-ℤ◌, int_laws}
use posnet_adapter.Adapter.Errors.{Failure, other_exception}
use posnet_adapter.Prelude.Exec.{Result, ok, err}
use posnet_adapter.Adapter.Signature.{
  codes, after_prefix, is_space, strip_left, strip_right, lower, candidate, is_ascii, same_codes,
  compare_digest, is_beyond_float, microseconds, skew_between, is_empty_text, bound_to,
  stamped_payload, signed_payload, matches_payload, verify_signature,
}

-- The digits of a hexadecimal digest.
abbrev pub is_hex_digit : ℕ → Bool
is_hex_digit c = (leb 48 c && leb c 57) || (leb 97 c && leb c 102)

abbrev pub IsHex : List ℕ → Type 0
IsHex s = All (λ c. is_hex_digit c ≡ true) s

after_prefix_hex : (s : List ℕ) → IsHex s → after_prefix (codes "sha256=") s ≡ none
after_prefix_hex [] h = refl
after_prefix_hex (c ∷ s) h = ground (arith, h.0)

hex_plain :
    (c : ℕ) → is_hex_digit c ≡ true → (is_space c ≡ false) × (lower c ≡ c) × (ltb c 128 ≡ true)
hex_plain c h = (ground arith, ground arith, ground arith)

strip_right_hex : (s : List ℕ) → IsHex s → strip_right s ≡ s
strip_right_hex [] h = refl
strip_right_hex (c ∷ []) h = rw (hex_plain c h.0).0 refl
strip_right_hex (c ∷ d ∷ s) h = rw (strip_right_hex (d ∷ s) h.1) refl

strip_left_hex : (s : List ℕ) → IsHex s → strip_left s ≡ s
strip_left_hex [] h = refl
strip_left_hex (c ∷ s) h = rw (hex_plain c h.0).0 refl

map-lower_hex : (s : List ℕ) → IsHex s → map lower s ≡ s
map-lower_hex [] h = refl
map-lower_hex (c ∷ s) h = let (_, same, _) = hex_plain c h.0 in rw (same, map-lower_hex s h.1) refl

is_ascii_hex : (s : List ℕ) → IsHex s → is_ascii s ≡ true
is_ascii_hex [] h = refl
is_ascii_hex (c ∷ s) h = let (_, _, low) = hex_plain c h.0 in rw (low, is_ascii_hex s h.1) refl

same_codes_refl : (s : List ℕ) → same_codes s s ≡ true
same_codes_refl [] = refl
same_codes_refl (c ∷ s) = ground (arith, same_codes_refl s)

same_codes_eq : (s t : List ℕ) → same_codes s t ≡ true → s ≡ t
same_codes_eq [] [] h = refl
same_codes_eq [] (d ∷ t) h = cc
same_codes_eq (c ∷ s) [] h = cc
same_codes_eq (c ∷ s) (d ∷ t) h = ground (arith, same_codes_eq s t)

apart :
    (stamp : ℤ) (bound now later : ℕ)
    → pos_part (pos now -ℤ stamp) + neg_part (pos now -ℤ stamp) ≤ bound
    → pos_part (pos later -ℤ stamp) + neg_part (pos later -ℤ stamp) ≤ bound
    → now + 2 * bound < later
    → ⊥
apart stamp bound now later near near' late = omega int_laws

-- The two shapes of a signature.
abbrev pub Carries : String → List ℕ → Type 0
Carries signature digest =
    (codes signature ≡ codes "sha256=" ++ digest) ⊎ (codes signature ≡ digest)

tidy : (s : List ℕ) → IsHex s → map lower (strip_right (strip_left s)) ≡ s
tidy s h = rw (strip_left_hex s h, strip_right_hex s h) (map-lower_hex s h)

candidate_digest :
    (signature : String) (digest : List ℕ)
    → IsHex digest
    → Carries signature digest
    → candidate signature ≡ digest
unfolding candidate
candidate_digest signature digest h (inl e) = rw e (tidy digest h)
candidate_digest signature digest h (inr e) = rw (e, after_prefix_hex digest h) (tidy digest h)

compare_digest_hex : (digest : List ℕ) → IsHex digest → compare_digest digest digest ≡ ok true
unfolding compare_digest
compare_digest_hex digest h = rw (is_ascii_hex digest h, same_codes_refl digest) refl

module _ (mac : String → String → List ℕ) (parse_int : String → Option ℤ)
    (show_int : ℤ → String) where
  -- What a delivery that passes was signed with.
  abbrev pub IsSigned : String → String → String → Option String → ℕ → ℕ → Type 0
  IsSigned body secret signature timestamp skew now =
      (signed : String) × (signed_payload mac parse_int show_int body timestamp skew now
        ≡ ok (some signed))
      × (candidate signature ≡ mac secret signed)

  matched :
      (secret signature : String) (r : Result Failure (Option String))
      → matches_payload mac parse_int show_int secret signature r ≡ ok true
      → (signed : String) × (r ≡ ok (some signed)) × (candidate signature ≡ mac secret signed)
  unfolding matches_payload compare_digest
  matched secret signature (err e) h = cc
  matched secret signature (ok none) h = cc
  matched secret signature (ok (some signed)) h =
      elim (Bool-cases (is_ascii (mac secret signed) && is_ascii (candidate signature))) [
        | inl plain ↦
            let t : ok (same_codes (mac secret signed) (candidate signature)) ≡ ok true =
              rw (plain, if◌then◌else◌) at h in
            (signed, refl, sym (same_codes_eq (mac secret signed) (candidate signature) cc))
        | inr wide ↦ let t : err other_exception ≡ ok true = rw (wide, if◌then◌else◌) at h in cc
      ]

  passed-IsSigned :
      (body secret signature : String) (timestamp : Option String) (skew now : ℕ)
      → verify_signature mac parse_int show_int body secret (some signature) timestamp skew now
        ≡ ok true
      → IsSigned body secret signature timestamp skew now
  unfolding verify_signature
  passed-IsSigned body secret signature timestamp skew now h =
      elim (Bool-cases (is_empty_text signature)) [
        | inl empty ↦ let t : ok false ≡ ok true = rw (empty, if◌then◌else◌) at h in cc
        | inr given ↦
            matched secret signature (signed_payload mac parse_int show_int body timestamp skew now)
              (rw (given, if◌then◌else◌) at h)
      ]

  -- What was signed with a timestamp binds it, and the clock was near it.
  abbrev pub IsNear : String → ℕ → ℕ → Option ℤ → String → Type 0
  IsNear body skew now o signed =
      (ts : ℤ) × (o ≡ some ts)
      × (skew_between now ts ≤ skew * 1000000)
      × (signed ≡ bound_to mac parse_int show_int ts body)

  stamped-IsNear :
      (body signed : String) (skew now : ℕ) (o : Option ℤ)
      → stamped_payload mac parse_int show_int body skew now o ≡ ok (some signed)
      → IsNear body skew now o signed
  unfolding stamped_payload
  stamped-IsNear body signed skew now none h = cc
  stamped-IsNear body signed skew now (some ts) h = elim (Bool-cases (is_beyond_float ts)) [
    | inl huge ↦
        let t : err other_exception ≡ ok (some signed) = rw (huge, if◌then◌else◌) at h in cc
    | inr small ↦ elim (Bool-cases (ltb (skew * 1000000) (skew_between now ts))) [
      | inl far ↦ let t : ok none ≡ ok (some signed) = rw (small, far, if◌then◌else◌) at h in cc
      | inr near ↦
          let t : ok (some (bound_to mac parse_int show_int ts body)) ≡ ok (some signed) =
            rw (small, near, if◌then◌else◌) at h in
          (ts, refl, ground (arith, near), cc)
    ]
  ]

  passed-IsNear :
      (body secret signature t : String) (skew now : ℕ)
      → verify_signature mac parse_int show_int body secret (some signature) (some t) skew now
        ≡ ok true
      → (signed : String) × IsNear body skew now (parse_int t) signed
        × (candidate signature ≡ mac secret signed)
  unfolding signed_payload
  passed-IsNear body secret signature t skew now h =
      let (signed, made, same) = passed-IsSigned body secret signature (some t) skew now h in
      (signed, stamped-IsNear body signed skew now (parse_int t) made, same)

  -- A timestamp with which some delivery passed at one time lets none pass, whatever its body,
  -- secret and signature, at a time that is later by more than twice the skew: a captured delivery
  -- cannot be replayed for longer.
  pub verify_signature_expires :
      (body secret signature body' secret' signature' t : String) (skew now later : ℕ)
      → verify_signature mac parse_int show_int body secret (some signature) (some t) skew now
        ≡ ok true
      → now + 2 * (skew * 1000000) < later
      → ¬ (
          verify_signature mac parse_int show_int body' secret'
            (some signature')
            (some t)
            skew
            later
          ≡ ok true)
  verify_signature_expires body secret signature body' secret' signature' t skew now later h late
        k =
      let (_, (ts, at, near, _), _) = passed-IsNear body secret signature t skew now h in
      let (_, (ts', at', near', _), _) = passed-IsNear body' secret' signature' t skew later k in
      let same : ts' ≡ ts = let e : some ts ≡ some ts' = sym at ∙ at' in cc in
      apart (microseconds ts) (skew * 1000000) now later near
        (subst (λ x. skew_between later x ≤ skew * 1000000) same near') late

  -- With a hexadecimal digest, a delivery whose signature is the digest of its timestamp and body,
  -- bare or after "sha256=", passes as long as the clock is within the skew of the timestamp.
  pub verify_signature_accepts :
      (body secret signature t : String) (ts : ℤ) (skew now : ℕ)
      → ((signed : String) → IsHex (mac secret signed))
      → parse_int t ≡ some ts
      → is_beyond_float ts ≡ false
      → skew_between now ts ≤ skew * 1000000
      → is_empty_text signature ≡ false
      → Carries signature (mac secret (bound_to mac parse_int show_int ts body))
      → verify_signature mac parse_int show_int body secret (some signature) (some t) skew now
        ≡ ok true
  unfolding verify_signature signed_payload stamped_payload matches_payload
  verify_signature_accepts body secret signature t ts skew now hex parsed small near given signed =
      let digest = mac secret (bound_to mac parse_int show_int ts body) in
      let fresh : ltb (skew * 1000000) (skew_between now ts) ≡ false = ground (arith, near) in
      rw (parsed, small, fresh, given, candidate_digest signature digest (hex _) signed)
        (compare_digest_hex digest (hex _))
