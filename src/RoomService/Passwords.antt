-- ===== src/RoomService/Passwords.antt =====
-- When the password test of `joinRoom` passes.
use smartmeet_backend.Prelude.{
  String, ◌≡◌, ◌⊎◌, inl, inr, true, false, Option, some, arith, ok, Bool-cases, Option-cases,
}
use smartmeet_backend.Constants.{is_password}
use smartmeet_backend.Models.{Database, Room}
use smartmeet_backend.RoomService.{Bcrypt, check_password, non_empty}

module _ (bcrypt : Bcrypt) where
  -- The password is right, or the room asks for none.
  abbrev pub PasswordFits : Room → Option String → Type 0
  PasswordFits room password =
      (is_password room.access_type ≡ false)
      ⊎ ((given : String) × (hashed : String) × (non_empty password ≡ some given)
          × (room.password_hash ≡ some hashed)
          × (bcrypt.compare given hashed ≡ true))

module _ (bcrypt : Bcrypt) (password : Option String) where
  pub check_password_passes :
      (room : Room) (db : Database)
      → PasswordFits bcrypt room password
      → check_password bcrypt room password db ≡ (ok tt, db)
  unfolding check_password
  check_password_passes room db (inl open_room) = rw open_room
  check_password_passes room db (inr (given, hashed, e, f, same)) = ground arith

  pub check_password_sound :
      (room : Room) (db : Database)
      → (check_password bcrypt room password db).0 ≡ ok tt
      → PasswordFits bcrypt room password
  unfolding check_password
  check_password_sound room db h = elim (Bool-cases (is_password room.access_type)) [
    | inr open_room ↦ inl open_room
    | inl asks ↦ elim (Option-cases (non_empty password)) [
      | inl missing ↦ ground arith
      | inr (given, e) ↦ elim (Option-cases room.password_hash) [
        | inl unset ↦ ground arith
        | inr (hashed, f) ↦ inr (given, hashed, e, f, ground arith)
      ]
    ]
  ]

  pub check_password_same :
      (room : Room) (db : Database) → (check_password bcrypt room password db).1 ≡ db
  unfolding check_password
  check_password_same room db = ground arith
