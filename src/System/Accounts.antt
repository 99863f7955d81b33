-- ===== src/System/Accounts.antt =====
-- What the consistency of rooms and that of accounts depend on.
use smartmeet_backend.Prelude.{ℕ, ◌≡◌, arith}
use smartmeet_backend.Models.{Database}
use smartmeet_backend.RoomService.{Bcrypt}
use smartmeet_backend.RoomService.Invariant.{IsConsistent}
use smartmeet_backend.UserService.{
  Jwt, JwtConfig, NewAccount, RegisterInput, register_check, register_user, issue_token_pair,
}
use smartmeet_backend.UserService.Accounts.{HasUniqueAccounts}

pub HasUniqueAccounts-users :
    (db later : Database) → later.users ≡ db.users → HasUniqueAccounts db → HasUniqueAccounts later
HasUniqueAccounts-users db later same h = record {
  emails = λ email. rw same (h.emails email);
  usernames = λ username. rw same (h.usernames username);
}

pub IsConsistent-rooms :
    (db later : Database)
    → later.rooms ≡ db.rooms
    → later.participants ≡ db.participants
    → IsConsistent db
    → IsConsistent later
IsConsistent-rooms db later rooms participants h = record {
  capacity = λ r. rw (rooms, participants) (h.capacity r);
  unique = λ r u. rw participants (h.unique r u);
}

module _ (jwt : Jwt) (config : JwtConfig) (bcrypt : Bcrypt) (now : ℕ) (a : NewAccount)
    (input : RegisterInput) (db : Database) where
  pub register_user-rooms :
      ((register_user jwt config bcrypt now a input db).1.rooms ≡ db.rooms)
      × ((register_user jwt config bcrypt now a input db).1.participants ≡ db.participants)
  unfolding register_user register_check issue_token_pair
  register_user-rooms = ground arith
