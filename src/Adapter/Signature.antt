-- ===== src/Adapter/Signature.antt =====
-- libs/adapter/hmac_verify.py. The texts that are compared are lists of code points. HMAC-SHA256 (as
-- `mac`, the hexadecimal digest of a text under a secret), `int(…)` of a text and the decimal text
-- of an integer are parameters. The clock is in microseconds.
pub mod Window
use Prim.Native.Char.{code}
use Prim.Native.String.{◌++◌ as str_append}
use posnet_adapter.Prelude.{
  ℕ, suc, ◌+◌, ◌-◌, ◌*◌, ◌^◌, String, Bool, true, false, ◌&&◌, ◌||◌, not, Option, none, some, List,
  [], ◌∷◌, ◌==◌, ltb, leb, if◌then◌else◌, str_eq, map,
}
use posnet_adapter.Prelude.Int.{ℤ, pos, negsuc, ◌-ℤ◌, pos_part, neg_part}
use posnet_adapter.Prelude.Exec.{Result, ok, err}
use posnet_adapter.Adapter.Errors.{Failure, other_exception}

abbrev pub codes : String → List ℕ
codes String.[] = []
codes (String.◌∷◌ c s) = code c ∷ codes s

-- `str.removeprefix`.
abbrev pub after_prefix : List ℕ → List ℕ → Option (List ℕ)
after_prefix [] s = some s
after_prefix (c ∷ p) [] = none
after_prefix (c ∷ p) (d ∷ s) = let rest = after_prefix p s in if c == d then rest else none

abbrev pub or_else : Option (List ℕ) → List ℕ → List ℕ
or_else none s = s
or_else (some r) s = r

abbrev pub remove_prefix : List ℕ → List ℕ → List ℕ
remove_prefix p s = or_else (after_prefix p s) s

-- `str.strip`. The text of a header has code points below 256.
abbrev pub is_space : ℕ → Bool
is_space c = ((leb 9 c && leb c 13) || (leb 28 c && leb c 32)) || (c == 133 || c == 160)

abbrev pub strip_left : List ℕ → List ℕ
strip_left [] = []
strip_left (c ∷ s) = let rest = strip_left s in if is_space c then rest else c ∷ s

-- A space goes where nothing but spaces follows it.
abbrev pub keep_before : ℕ → List ℕ → List ℕ
keep_before c [] = if is_space c then [] else c ∷ []
keep_before c (d ∷ s) = c ∷ d ∷ s

abbrev pub strip_right : List ℕ → List ℕ
strip_right [] = []
strip_right (c ∷ s) = keep_before c (strip_right s)

-- `str.lower`.
abbrev pub lower : ℕ → ℕ
lower c =
    if (leb 65 c && leb c 90) || ((leb 192 c && leb c 222) && not (c == 215)) then c + 32 else c

unfoldable pub candidate : String → List ℕ
candidate signature =
    map lower (strip_right (strip_left (remove_prefix (codes "sha256=") (codes signature))))

abbrev pub is_ascii : List ℕ → Bool
is_ascii [] = true
is_ascii (c ∷ s) = ltb c 128 && is_ascii s

abbrev pub same_codes : List ℕ → List ℕ → Bool
same_codes [] [] = true
same_codes [] (d ∷ t) = false
same_codes (c ∷ s) [] = false
same_codes (c ∷ s) (d ∷ t) = c == d && same_codes s t

-- `hmac.compare_digest`, which raises `TypeError` on texts beyond ASCII.
unfoldable pub compare_digest : List ℕ → List ℕ → Result Failure Bool
compare_digest a b = if is_ascii a && is_ascii b then ok (same_codes a b) else err other_exception

abbrev pub default_max_skew_seconds : ℕ
default_max_skew_seconds = 300

-- The integers that no float is near enough to: `float - int` raises `OverflowError`.
unfoldable pub is_beyond_float : ℤ → Bool
is_beyond_float ts = leb (2 ^ 1024 - 2 ^ 970) (pos_part ts + neg_part ts)

abbrev pub microseconds : ℤ → ℤ
microseconds (pos n) = pos (n * 1000000)
microseconds (negsuc n) = negsuc (n * 1000000 + 999999)

-- `abs(current - ts)`.
abbrev pub skew_between : ℕ → ℤ → ℕ
skew_between now ts = pos_part (pos now -ℤ microseconds ts) + neg_part (pos now -ℤ microseconds ts)

abbrev pub is_empty_text : String → Bool
is_empty_text s = str_eq s ""

module _ (mac : String → String → List ℕ) (parse_int : String → Option ℤ)
    (show_int : ℤ → String) where
  abbrev pub bound_to : ℤ → String → String
  bound_to ts body = str_append (str_append (show_int ts) ".") body

  -- What was signed, given the timestamp as an integer; `ok none` is a delivery to be rejected.
  unfoldable pub stamped_payload : String → ℕ → ℕ → Option ℤ → Result Failure (Option String)
  unfolding is_beyond_float
  stamped_payload body max_skew_seconds now none = ok none
  stamped_payload body max_skew_seconds now (some ts) =
      if is_beyond_float ts
      then err other_exception
      else if ltb (max_skew_seconds * 1000000) (skew_between now ts)
      then ok none
      else ok (some (bound_to ts body))

  unfoldable pub signed_payload : String → Option String → ℕ → ℕ → Result Failure (Option String)
  unfolding stamped_payload
  signed_payload body none max_skew_seconds now = ok (some body)
  signed_payload body (some t) max_skew_seconds now =
      stamped_payload body max_skew_seconds now (parse_int t)

  unfoldable pub matches_payload :
      String → String → Result Failure (Option String) → Result Failure Bool
  unfolding candidate compare_digest
  matches_payload secret signature (err e) = err e
  matches_payload secret signature (ok none) = ok false
  matches_payload secret signature (ok (some signed)) =
      compare_digest (mac secret signed) (candidate signature)

  -- The arguments of `verify_signature`: body, secret, signature, timestamp, bound and clock.
  unfoldable pub verify_signature :
      String → String → Option String → Option String → ℕ → ℕ → Result Failure Bool
  unfolding matches_payload signed_payload
  verify_signature body secret none timestamp max_skew_seconds now = ok false
  verify_signature body secret (some signature) timestamp max_skew_seconds now =
      if is_empty_text signature
      then ok false
      else matches_payload secret signature (signed_payload body timestamp max_skew_seconds now)
