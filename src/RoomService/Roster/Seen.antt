-- ===== src/RoomService/Roster/Seen.antt =====
-- What a client sees of an operation of the room service.
use smartmeet_backend.Prelude.{◌≡◌, refl, ap, ◌⊎◌, inl, inr, ok, err, Result}
use smartmeet_backend.Errors.{Failure}
use smartmeet_backend.Models.{Database, RoomParticipant}
use smartmeet_backend.RoomService.Roster.{Reply, refused, seated, Answer}
use smartmeet_backend.RoomService.Roster.View.{seat_of, view}

pub Result-cases :
    {A : Type 0} (r : Result A) → ((a : A) × (r ≡ ok a)) ⊎ ((e : Failure) × (r ≡ err e))
Result-cases (ok a) = inl (a, refl)
Result-cases (err e) = inr (e, refl)

-- What a client sees: the reply, and the roster after it.
abbrev pub seen : {A : Type 0} → (A → Reply) → Result A × Database → Answer
seen reply (ok a, db) = (reply a, view db)
seen reply (err e, db) = (refused, view db)

abbrev pub reply_seat : RoomParticipant → Reply
reply_seat p = seated (seat_of p)

pub seen-err :
    {A : Type 0} (reply : A → Reply) (x : Result A × Database) (db : Database) {e : Failure}
    → x.0 ≡ err e
    → x.1 ≡ db
    → seen reply x ≡ (refused, view db)
seen-err reply (ok p, d) db h same = absurd (cc h)
seen-err reply (err e, d) db h same = ap (λ s. (refused, view s)) same
