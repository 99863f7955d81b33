-- ===== src/RoomService/Cache/Staleness.antt =====
-- How old an answer from the cache can be.
use smartmeet_backend.Prelude.{
  ℕ, ◌+◌, ◌<◌, ◌≡◌, sym, ◌∙◌, ◌⊎◌, inl, inr, Bool, none, some, List, [], ◌∷◌, arith, Option-cases,
}
use smartmeet_backend.Prelude.Map.{get, get-set, get-delete}
use smartmeet_backend.Constants.{room_list_ttl}
use smartmeet_backend.Models.{Database, Room}
use smartmeet_backend.RoomService.Listing.{RoomList, query_rooms}
use smartmeet_backend.RoomService.Cache.{
  CacheKey, room_list, room_list_page, cache_key, Entry, Redis, read_cache, write_cache,
  invalidate_room_list_cache, list_rooms,
}

-- The server's life as the cache sees it: a request for a page, a write to the database with the
-- invalidation that follows it, and Redis going down or coming back.
pub data Event : Type 0 where
  request : (page limit : ℕ) → Event
  write : Event
  outage : Bool → Event

-- Each event comes with its time, with the database as it stands then, and with the order in which
-- the database would give the rows.
pub record Moment : Type 0 where
  pub now : ℕ
  pub order : List Room → List Room
  pub db : Database
  pub event : Event

pub react : Moment → Redis → Redis
react m redis = elim m.event [
  | request page limit ↦ (list_rooms m.order m.now page limit m.db redis).1
  | write ↦ invalidate_room_list_cache redis
  | outage up ↦ record redis { is_up = up }
]

-- The moments are listed with the latest first.
pub after : List Moment → Redis → Redis
after [] redis = redis
after (m ∷ ms) redis = react m (after ms redis)

-- At one of the moments the database answered the query so, at a time that is less than the TTL
-- before the entry expires.
pub data Answered (page limit : ℕ) (e : Entry) : List Moment → Type 0 where
  at :
      {ms : List Moment} (m : Moment)
      → e.answer ≡ query_rooms m.order page limit m.db
      → e.expires_at ≡ m.now + room_list_ttl
      → Answered page limit e (m ∷ ms)
  before :
      {ms : List Moment} (m : Moment) → Answered page limit e ms → Answered page limit e (m ∷ ms)

abbrev Sound : List Moment → Redis → Type 0
Sound ms redis =
    (page limit : ℕ) (e : Entry)
    → get redis.entries (room_list_page page limit) ≡ some e
    → Answered page limit e ms

-- What a write leaves under a key: the entry that was there, or the new one.
write_cache_entry :
    (now page limit p l : ℕ) (answer : RoomList) (redis : Redis) (e : Entry)
    → get
        (write_cache now (room_list_page page limit) room_list_ttl answer redis).entries
        (room_list_page p l)
      ≡ some e
    → (get redis.entries (room_list_page p l) ≡ some e)
      ⊎ ((page ≡ p) × (limit ≡ l) × (e.answer ≡ answer) × (e.expires_at ≡ now + room_list_ttl))
unfolding write_cache
write_cache_entry now page limit p l answer redis e h = ground (
  arith,
  get-set redis.entries (room_list_page page limit) (room_list_page p l)
      (record { answer = answer; expires_at = now + room_list_ttl }),
)

request_entry :
    (order : List Room → List Room) (now page limit p l : ℕ) (db : Database) (redis : Redis)
    (e : Entry)
    → get (list_rooms order now page limit db redis).1.entries (room_list_page p l) ≡ some e
    → (get redis.entries (room_list_page p l) ≡ some e)
      ⊎ ((page ≡ p)
          × (limit ≡ l)
          × (e.answer ≡ query_rooms order page limit db)
          × (e.expires_at ≡ now + room_list_ttl))
unfolding list_rooms
request_entry order now page limit p l db redis e h =
    elim (Option-cases (read_cache now (room_list_page page limit) redis)) [
      | inr (cached, hit) ↦ inl (ground arith)
      | inl miss ↦
          write_cache_entry now page limit p l (query_rooms order page limit db) redis e
            (ground arith)
    ]

invalidate_entry :
    (p l : ℕ) (redis : Redis)
    → get (invalidate_room_list_cache redis).entries (room_list_page p l)
      ≡ get redis.entries (room_list_page p l)
unfolding invalidate_room_list_cache
invalidate_entry p l redis = ground (arith, get-delete redis.entries room_list (room_list_page p l))

react-Sound :
    (order : List Room → List Room) (now : ℕ) (db : Database) (event : Event) (ms : List Moment)
    (redis : Redis)
    → Sound ms redis
    → let m : Moment = record { now = now; order = order; db = db; event = event } in
      Sound (m ∷ ms) (react m redis)
unfolding react
react-Sound order now db (request page limit) ms redis s p l e h =
    elim (request_entry order now page limit p l db redis e h) [
      | inl old ↦ before _ (s p l e old)
      | inr (same_page, same_limit, answer, expiry) ↦
          at _ (rw (← same_page, ← same_limit) answer) expiry
    ]
react-Sound order now db write ms redis s p l e h =
    before _ (s p l e (sym (invalidate_entry p l redis) ∙ h))
react-Sound order now db (outage up) ms redis s p l e h = before _ (s p l e h)

after-Sound : (ms : List Moment) (redis : Redis) → redis.entries ≡ [] → Sound ms (after ms redis)
unfolding after get
after-Sound [] redis empty p l e h = ground arith
after-Sound (m ∷ ms) redis empty p l e h =
    react-Sound m.order m.now m.db m.event ms (after ms redis) (after-Sound ms redis empty) p l e h

-- At one of the moments, less than the TTL before `now`, the database answered the query so.
pub data Recent (now page limit : ℕ) (answer : RoomList) : List Moment → Type 0 where
  at :
      {ms : List Moment} (m : Moment)
      → answer ≡ query_rooms m.order page limit m.db
      → now < m.now + room_list_ttl
      → Recent now page limit answer (m ∷ ms)
  before :
      {ms : List Moment} (m : Moment)
      → Recent now page limit answer ms
      → Recent now page limit answer (m ∷ ms)

Answered-Recent :
    {now page limit : ℕ} {e : Entry} {ms : List Moment}
    → Answered page limit e ms
    → now < e.expires_at
    → Recent now page limit e.answer ms
Answered-Recent (Answered.at m same expiry) h = Recent.at m same (omega arith)
Answered-Recent (Answered.before m a) h = Recent.before m (Answered-Recent a h)

read_cache_live :
    (now : ℕ) (k : CacheKey) (redis : Redis) {answer : RoomList}
    → read_cache now k redis ≡ some answer
    → (e : Entry) × (get redis.entries k ≡ some e) × (e.answer ≡ answer) × (now < e.expires_at)
unfolding read_cache
read_cache_live now k redis h = elim (Option-cases (get redis.entries k)) [
  | inl missing ↦ ground arith
  | inr (e, there) ↦ (e, there, ground arith, ground arith)
]

list_rooms_hit :
    (order : List Room → List Room) (now page limit : ℕ) (db : Database) (redis : Redis)
    {cached : RoomList}
    → read_cache now (room_list_page page limit) redis ≡ some cached
    → (list_rooms order now page limit db redis).0 ≡ cached
unfolding list_rooms
list_rooms_hit order now page limit db redis hit = ground arith

list_rooms_miss :
    (order : List Room → List Room) (now page limit : ℕ) (db : Database) (redis : Redis)
    → read_cache now (room_list_page page limit) redis ≡ none
    → (list_rooms order now page limit db redis).0 ≡ query_rooms order page limit db
unfolding list_rooms
list_rooms_miss order now page limit db redis miss = ground arith

-- Whatever requests, writes and outages came since the cache was empty, the answer to a request
-- is the database's answer of now, or the one that the database had for the same query at one of
-- those moments, less than the time to live, 15 seconds, before now.
pub list_rooms-Recent :
    (order : List Room → List Room) (now page limit : ℕ) (db : Database) (ms : List Moment)
    (start : Redis)
    → start.entries ≡ []
    → let answer = (list_rooms order now page limit db (after ms start)).0 in
      (answer ≡ query_rooms order page limit db) ⊎ Recent now page limit answer ms
list_rooms-Recent order now page limit db ms start empty =
    elim (Option-cases (read_cache now (room_list_page page limit) (after ms start))) [
      | inl miss ↦ inl (list_rooms_miss order now page limit db (after ms start) miss)
      | inr (cached, hit) ↦
          let (e, there, same, fresh) =
            read_cache_live now (room_list_page page limit) (after ms start) hit in
          inr (
            rw (list_rooms_hit order now page limit db (after ms start) hit, ← same)
              (Answered-Recent (after-Sound ms start empty page limit e there) fresh))
    ]

-- Where a request would get a page from the cache, it gets the same page after the invalidation
-- that follows a write, whatever the database holds by then.
pub invalidate_keeps_pages :
    (order : List Room → List Room) (now page limit : ℕ) (db : Database) (redis : Redis)
    {cached : RoomList}
    → read_cache now (room_list_page page limit) redis ≡ some cached
    → (list_rooms order now page limit db (invalidate_room_list_cache redis)).0 ≡ cached
unfolding list_rooms read_cache invalidate_room_list_cache
invalidate_keeps_pages order now page limit db redis hit =
    ground (arith, get-delete redis.entries room_list (room_list_page page limit))
