-- ===== src/Channels/Json.antt =====
-- JSON values, and how the adapters take a field of one: `str(data["k"])` and `int(data["k"])`. The
-- texts of numbers and of values other than texts are Python's, given by `Texts`.
use posnet_adapter.Prelude.{
  ℕ, String, Bool, true, false, not, Option, none, some, List, [], ◌∷◌, str_eq, if◌then◌else◌,
}
use posnet_adapter.Prelude.Int.{ℤ, pos, ◌==ℤ◌}
use posnet_adapter.Prelude.Exec.{Result, ok, err}
use posnet_adapter.Adapter.Errors.{Failure, other_exception}

-- `real` is a number that is written with a point or an exponent.
mutual
  pub data Json : Type 0 where
    null : Json
    truth : Bool → Json
    number : ℤ → Json
    real : String → Json
    text : String → Json
    array : Elements → Json
    object : Fields → Json

  pub data Elements : Type 0 where
    nil : Elements
    cons : Json → Elements → Elements

  pub data Fields : Type 0 where
    no_field : Fields
    field : String → Json → Fields → Fields

pub record Texts : Type 0 where
  pub show_json : Json → String
  pub show_number : ℕ → String
  pub parse_int : String → Option ℤ
  pub truncate : String → Option ℤ
  pub is_nonzero : String → Bool
  pub parse_seconds : String → Option ℕ

-- What raises ends the reading.
infixl 5 ◌>>=◌
abbrev pub ◌>>=◌ : {A B : Type 0} → Result Failure A → (A → Result Failure B) → Result Failure B
ok a >>= f = f a
err e >>= f = err e

-- The key that stands last wins, as in the dict that `json.loads` makes.
abbrev or_first : Option Json → Json → Option Json
or_first none j = some j
or_first (some later) j = some later

abbrev pub field_at : String → Fields → Option Json
field_at k no_field = none
field_at k (field name j rest) =
    let later = field_at k rest in if str_eq name k then or_first later j else later

abbrev pub elements : Elements → List Json
elements nil = []
elements (cons j rest) = j ∷ elements rest

abbrev pub to_array : List Json → Elements
to_array [] = nil
to_array (j ∷ rest) = cons j (to_array rest)

-- `data[k]`: a `KeyError`, and on a value that is no dict a `TypeError`.
abbrev pub or_error : {A : Type 0} → Option A → Result Failure A
or_error none = err other_exception
or_error (some a) = ok a

abbrev pub at_key : String → Json → Result Failure Json
at_key k (object fields) = or_error (field_at k fields)
at_key k _ = err other_exception

abbrev pub to_text : Texts → Json → String
to_text t (text s) = s
to_text t j = t.show_json j

abbrev pub to_int : Texts → Json → Result Failure ℤ
to_int t (number n) = ok n
to_int t (text s) = or_error (t.parse_int s)
to_int t (real s) = or_error (t.truncate s)
to_int t (truth b) = ok (if b then pos 1 else pos 0)
to_int t _ = err other_exception

abbrev pub text_at : Texts → String → Json → Result Failure String
text_at t k j = at_key k j >>= λ x. ok (to_text t x)

abbrev pub int_at : Texts → String → Json → Result Failure ℤ
int_at t k j = at_key k j >>= to_int t

-- `data.get(k)`, which only a dict has.
abbrev pub get_key : String → Json → Result Failure (Option Json)
get_key k (object fields) = ok (field_at k fields)
get_key k _ = err other_exception

-- Whether Python counts a value as true.
abbrev pub is_truthy : Texts → Json → Bool
is_truthy t null = false
is_truthy t (truth b) = b
is_truthy t (number n) = not (n ==ℤ pos 0)
is_truthy t (real s) = t.is_nonzero s
is_truthy t (text s) = not (str_eq s "")
is_truthy t (array nil) = false
is_truthy t (array (cons _ _)) = true
is_truthy t (object no_field) = false
is_truthy t (object (field _ _ _)) = true

abbrev pub each_text : String → Result Failure (List Json)
each_text s = if str_eq s "" then ok [] else err other_exception

-- `for x in j`, where the loop's body looks up a key of `x`: on the keys of a dict and on the
-- characters of a text that lookup raises.
abbrev pub each : Json → Result Failure (List Json)
each (array xs) = ok (elements xs)
each (object no_field) = ok []
each (text s) = each_text s
each _ = err other_exception

abbrev pub map_all : {A : Type 0} → (Json → Result Failure A) → List Json → Result Failure (List A)
map_all f [] = ok []
map_all f (j ∷ rest) = f j >>= λ a. map_all f rest >>= λ b. ok (a ∷ b)
