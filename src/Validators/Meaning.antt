-- ===== src/Validators/Meaning.antt =====
-- What Joi documents of a value that it accepts: the keys that a schema asks for are there, and each
-- value is of the kind and passes the rules of its key. What an email address and a UUID are is
-- Joi's.
use smartmeet_backend.Prelude.{
  ℕ, ◌+◌, ◌≡◌, String, Bool, true, false, not, ◌&&◌, ◌||◌, Option, none, some, List, [], ◌∷◌, leb,
  ltb, is_some, is_none, if◌then◌else◌,
}
use Prim.Native.Char.{code}
use package.text.Mathlib.Text.{◌==◌ as str_eq}
use smartmeet_backend.Config.{ℤ, pos, negsuc}
use smartmeet_backend.Validators.{
  Value, text, whole, fraction, Payload, Kind, string, number, Rule, email, alphanum, guid, integer,
  at_least, at_most, valid, Presence, required, optional, forbidden, when_is, Field, Schema,
}

-- JavaScript's `length` of a text: the number of its UTF-16 code units
unfoldable pub text_length : String → ℕ
text_length String.[] = 0
text_length (String.◌∷◌ c s) = (if leb 65536 (code c) then 2 else 1) + text_length s

is_alphanumeric : ℕ → Bool
is_alphanumeric c =
    (leb b'0' c && leb c b'9') || ((leb b'a' c && leb c b'z') || (leb b'A' c && leb c b'Z'))

unfoldable pub all_alphanumeric : String → Bool
unfolding is_alphanumeric
all_alphanumeric String.[] = true
all_alphanumeric (String.◌∷◌ c s) = is_alphanumeric (code c) && all_alphanumeric s

abbrev pub value_of : String → Payload → Option Value
value_of key [] = none
value_of key ((k, v) ∷ rest) = if str_eq k key then some v else value_of key rest

abbrev pub one_of : List String → String → Bool
one_of [] s = false
one_of (t ∷ ts) s = str_eq t s || one_of ts s

-- the orders between a bound and an integer
abbrev pub at_least_int : ℕ → ℤ → Bool
at_least_int n (pos m) = leb n m
at_least_int n (negsuc m) = false

abbrev pub at_most_int : ℕ → ℤ → Bool
at_most_int n (pos m) = leb m n
at_most_int n (negsuc m) = true

abbrev pub below_int : ℕ → ℤ → Bool
below_int n (pos m) = ltb m n
below_int n (negsuc m) = true

-- the texts that are emails, and those that are UUIDs of version 4
pub record Formats : Type 0 where
  pub is_email : String → Bool
  pub is_guid : String → Bool

pub record Joi : Type 0 where
  pub validate : Schema → Payload → Option Payload
  pub formats : Formats

module _ (formats : Formats) where
  -- A bound on a text is one on its length.
  abbrev pub passes : Rule → Value → Bool
  passes email (text s) = formats.is_email s
  passes alphanum (text s) = all_alphanumeric s
  passes guid (text s) = formats.is_guid s
  passes (at_least n) (text s) = leb n (text_length s)
  passes (at_most n) (text s) = leb (text_length s) n
  passes (valid ts) (text s) = one_of ts s
  passes integer (whole z) = true
  passes (at_least n) (whole z) = at_least_int n z
  passes (at_most n) (whole z) = at_most_int n z
  passes (at_least n) (fraction z) = at_least_int n z
  passes (at_most n) (fraction z) = below_int n z
  passes _ _ = false

  abbrev pub passes_all : List Rule → Value → Bool
  passes_all [] v = true
  passes_all (rule ∷ rules) v = passes rule v && passes_all rules v

  abbrev pub has_kind : Kind → Value → Bool
  has_kind string (text s) = true
  has_kind number (whole z) = true
  has_kind number (fraction z) = true
  has_kind _ _ = false

  abbrev pub is_text : String → Option Value → Bool
  is_text t (some (text s)) = str_eq t s
  is_text t _ = false

  -- whether a key may be there, or missing, beside the others
  abbrev pub may_be : Presence → Bool → Payload → Bool
  may_be required there body = there
  may_be optional there body = true
  may_be forbidden there body = not there
  may_be (when_is key t yes_ no_) there body =
      if is_text t (value_of key body) then may_be yes_ there body else may_be no_ there body

  abbrev pub fits : Field → Option Value → Bool
  fits f none = is_none f.default
  fits f (some v) = has_kind f.kind v && passes_all f.rules v

  abbrev pub meets : Payload → Field → Bool
  meets body f = let v = value_of f.key body in may_be f.presence (is_some v) body && fits f v

  abbrev pub meets_all : Payload → Schema → Bool
  meets_all body [] = true
  meets_all body (f ∷ fs) = meets body f && meets_all body fs

-- What is accepted, with its defaults and conversions, meets the schema.
pub record IsJoi (joi : Joi) : Type 0 where
  pub sound :
      (schema : Schema) (given accepted : Payload)
      → joi.validate schema given ≡ some accepted
      → meets_all joi.formats accepted schema ≡ true
