-- ===== src/Http/Payloads/Accepted.antt =====
-- What Joi accepts, the handlers can read, and it is within the schema's bounds.
use smartmeet_backend.Prelude.{
  ℕ, ◌≤◌, ◌≡◌, refl, sym, ◌∙◌, String, Bool, true, Option, none, some, List, [], ◌∷◌, arith,
  is_some, All, inl, inr, Bool-cases,
}
use package.text.Mathlib.Text.{◌==◌ as str_eq}
use package.text.Mathlib.TextEquality.{eq_iff}
use smartmeet_backend.Config.{pos, negsuc}
use smartmeet_backend.Constants.{
  RoomAccessType, is_password, public_access, private_access, password_access,
}
use smartmeet_backend.RoomService.{CreateRoomInput}
use smartmeet_backend.Validators.{
  Value, text, whole, fraction, other, Payload, Kind, string, number, Rule, integer, at_least,
  at_most, valid, required, forbidden, when_is, Field, Schema, access_types,
}
use smartmeet_backend.Validators
use smartmeet_backend.Validators.Meaning.{
  Formats, Joi, IsJoi, value_of, meets_all, fits, passes_all, text_length, may_be,
}
use smartmeet_backend.Http.Payloads.{text_in, access_type_of, read_create_room}

module _ (formats : Formats) (f : Field) where
  -- A text that must be there is there, and passes the rules.
  text_of :
      (o : Option Value)
      → f.kind ≡ string
      → is_some o ≡ true
      → fits formats f o ≡ true
      → (s : String) × (o ≡ some (text s)) × (passes_all formats f.rules (text s) ≡ true)
  text_of none k there h = absurd (cc there)
  text_of (some (text s)) k there h = (s, refl, ground arith)
  text_of (some (whole z)) k there h = ground arith
  text_of (some (fraction z)) k there h = ground arith
  text_of (some other) k there h = ground arith

  fits_there :
      (o : Option Value) (d : Value)
      → f.default ≡ some d
      → fits formats f o ≡ true
      → is_some o ≡ true
  fits_there none d e h = ground arith
  fits_there (some v) d e h = refl

-- A number between two bounds.
module _ (formats : Formats) (low : ℕ) (rest : List Rule) where
  number_of :
      (o : Option Value) (f : Field)
      → f.kind ≡ number
      → f.rules ≡ integer ∷ at_least low ∷ rest
      → is_some o ≡ true
      → fits formats f o ≡ true
      → (n : ℕ) × (o ≡ some (whole (pos n)))
        × (low ≤ n)
        × (passes_all formats rest (whole (pos n)) ≡ true)
  number_of none f k r there h = absurd (cc there)
  number_of (some (whole (pos n))) f k r there h = (n, refl, ground arith, ground arith)
  number_of (some (whole (negsuc n))) f k r there h = ground arith
  number_of (some (fraction z)) f k r there h = ground arith
  number_of (some (text s)) f k r there h = ground arith
  number_of (some other) f k r there h = ground arith

-- The text at a key, if any, passes the rules.
text_in_there :
    (formats : Formats) (f : Field) (o : Option Value)
    → f.kind ≡ string
    → fits formats f o ≡ true
    → (is_some (text_in o) ≡ is_some o)
      × ((s : String) → text_in o ≡ some s → passes_all formats f.rules (text s) ≡ true)
text_in_there formats f none k h = (refl, λ s e. cc)
text_in_there formats f (some (text t)) k h = (refl, λ s e. ground arith)
text_in_there formats f (some (whole z)) k h = ground arith
text_in_there formats f (some (fraction z)) k h = ground arith
text_in_there formats f (some other) k h = ground arith

-- What a schema asks of one key of an accepted payload.
record Meets (formats : Formats) (body : Payload) (f : Field) : Type 0 where
  allowed : may_be formats f.presence (is_some (value_of f.key body)) body ≡ true
  fit : fits formats f (value_of f.key body) ≡ true

meets_all-Meets :
    (formats : Formats) (body : Payload) (fs : Schema)
    → meets_all formats body fs ≡ true
    → All (Meets formats body) fs
meets_all-Meets formats body [] h = tt
meets_all-Meets formats body (f ∷ fs) h = (
  record { allowed = ground arith; fit = ground arith },
  meets_all-Meets formats body fs (ground arith),
)

module _ {formats : Formats} {body : Payload} where
  module _ {f : Field} (m : Meets formats body f) where
    required_there : f.presence ≡ required → is_some (value_of f.key body) ≡ true
    required_there e = ground arith

    default_there : {d : Value} → f.default ≡ some d → is_some (value_of f.key body) ≡ true
    default_there e = fits_there formats f (value_of f.key body) _ e m.fit

    -- A text that is there passes the rules, and so does a number.
    text_there :
        f.kind ≡ string
        → is_some (value_of f.key body) ≡ true
        → (s : String) × (value_of f.key body ≡ some (text s))
          × (passes_all formats f.rules (text s) ≡ true)
    text_there k there = text_of formats f (value_of f.key body) k there m.fit

    texts_pass :
        f.kind ≡ string
        → (is_some (text_in (value_of f.key body)) ≡ is_some (value_of f.key body))
          × ((s : String)
              → text_in (value_of f.key body) ≡ some s
              → passes_all formats f.rules (text s) ≡ true)
    texts_pass k = text_in_there formats f (value_of f.key body) k m.fit

    places_there :
        (low : ℕ) (rest : List Rule)
        → f.kind ≡ number
        → f.rules ≡ integer ∷ at_least low ∷ rest
        → is_some (value_of f.key body) ≡ true
        → (n : ℕ) × (value_of f.key body ≡ some (whole (pos n)))
          × (low ≤ n)
          × (passes_all formats rest (whole (pos n)) ≡ true)
    places_there low rest k r there =
        number_of formats low rest (value_of f.key body) f k r there m.fit

-- An access type that passes is one of the three.
access_there :
    (formats : Formats) (s : String)
    → passes_all formats (valid access_types ∷ []) (text s) ≡ true
    → (a : RoomAccessType) × (access_type_of s ≡ some a) × (is_password a ≡ str_eq "password" s)
access_there formats s h = elim (Bool-cases (str_eq "public" s)) [
  | inl p ↦
      let e : "public" ≡ s = (eq_iff "public" s).0 p in (public_access, rw p refl, rw (← e) refl)
  | inr p ↦ elim (Bool-cases (str_eq "private" s)) [
    | inl q ↦
        let e : "private" ≡ s = (eq_iff "private" s).0 q in
        (private_access, rw (p, q) refl, rw (← e) refl)
    | inr q ↦
        let r : str_eq "password" s ≡ true = ground arith in
        (password_access, rw (p, q, r) refl, sym r)
  ]
]

when_locked :
    (formats : Formats) (body : Payload) (t : String) (there : Bool)
    → value_of "accessType" body ≡ some (text t)
    → may_be formats (when_is "accessType" "password" required forbidden) there body ≡ true
    → there ≡ str_eq "password" t
when_locked formats body t there access h = elim (Bool-cases (str_eq "password" t)) [
  | inl p ↦ (rw (access, p) at h) ∙ sym p
  | inr p ↦ let out = rw (access, p) at h in ground arith
]

-- What the handler of a new room is given.
pub record IsSoundInput (input : CreateRoomInput) : Type 0 where
  pub few : 2 ≤ input.max_participants
  pub many : input.max_participants ≤ 500
  pub locked : is_some input.password ≡ is_password input.access_type
  pub long : (p : String) → input.password ≡ some p → 4 ≤ text_length p

module _ (joi : Joi) (laws : IsJoi joi) (given accepted : Payload) where
  pub read_create_room-IsSoundInput :
      joi.validate Validators.create_room given ≡ some accepted
      → (input : CreateRoomInput) × (read_create_room joi given ≡ some input) × IsSoundInput input
  read_create_room-IsSoundInput e =
      let (on_name, (on_access, (on_password, (on_places, _)))) =
        meets_all-Meets joi.formats accepted Validators.create_room
          (laws.sound Validators.create_room given accepted e) in
      let (n, name, _) = text_there on_name refl (required_there on_name refl) in
      let (t, access, is_type) = text_there on_access refl (default_there on_access refl) in
      let (a, type, is_locked) = access_there joi.formats t is_type in
      let (m, places, few, many) =
        places_there on_places 2 (at_most 500 ∷ []) refl refl (default_there on_places refl) in
      let (is_there, passes) = texts_pass on_password refl in
      (
        record {
          name = n;
          access_type = a;
          password = text_in (value_of "password" accepted);
          max_participants = m;
          host_id = 0;
        },
        rw (e, name, access, type, places) refl,
        record {
          few = few;
          many = ground arith;
          locked =
              is_there
              ∙ (when_locked joi.formats accepted t _ access on_password.allowed ∙ sym is_locked);
          long = λ p q. ground (arith, passes p q);
        },
      )
