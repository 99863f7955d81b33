-- ===== src/Tests/Lists.antt =====
-- The theorems on the room list, its cache and the messages, on the test data.
use smartmeet_backend.Prelude.{◌≡◌, ◌⊎◌, refl, true, false, some, List, [], ◌∷◌, arith, map}
use smartmeet_backend.Prelude.Map.{get}
use smartmeet_backend.Prelude.Ordering.{newest_first, newest_first-Orders, pick, nil, here, there}
use smartmeet_backend.Models.{Database, Room}
use smartmeet_backend.RoomService.Listing.{RoomList, query_rooms, room_json}
use smartmeet_backend.RoomService.Listing.Pages.{listed, query_rooms_complete}
use smartmeet_backend.RoomService.Cache.{
  Redis, cache_key, read_cache, room_list_page, list_rooms, invalidate_room_list_cache,
}
use smartmeet_backend.RoomService.Cache.Staleness.{
  Moment, request, write, after, Recent, list_rooms-Recent, invalidate_keeps_pages,
}
use smartmeet_backend.Tests.Data.{tables, lobby}

abbrev by_time : List Room → List Room
by_time = newest_first (λ (r : Room). r.created_at)

abbrev empty_tables : Database
empty_tables = record tables { rooms = []; participants = []; messages = [] }

abbrev no_cache : Redis
no_cache = record { is_up = true; entries = [] }

-- a request that fills the cache while there is no room, then a write
abbrev moments : List Moment
moments =
    record { now = 101; order = by_time; db = tables; event = write }
    ∷ record { now = 100; order = by_time; db = empty_tables; event = request 1 10 }
    ∷ []

list_rooms-Recent_example :
    let answer = (list_rooms by_time 102 1 10 tables (after moments no_cache)).0 in
    (answer ≡ query_rooms by_time 1 10 tables) ⊎ Recent 102 1 10 answer moments
list_rooms-Recent_example = list_rooms-Recent by_time 102 1 10 tables moments no_cache refl

abbrev page : RoomList
page = query_rooms by_time 1 10 empty_tables

abbrev cached_page : Redis
cached_page = record {
  is_up = true;
  entries = (room_list_page 1 10, record { answer = page; expires_at = 115 }) ∷ [];
}

page_hit : read_cache 102 (room_list_page 1 10) cached_page ≡ some page
unfolding read_cache get
page_hit = refl

invalidate_keeps_pages_example :
    (list_rooms by_time 102 1 10 tables (invalidate_room_list_cache cached_page)).0 ≡ page
invalidate_keeps_pages_example = invalidate_keeps_pages by_time 102 1 10 tables cached_page page_hit

-- two rooms that are listed, and an older one that has ended
abbrev two_rooms : Database
two_rooms = record tables {
  rooms =
      lobby
      ∷ record lobby { id = 2; is_active = false; created_at = 5 }
      ∷ record lobby { id = 3; created_at = 9 }
      ∷ [];
}

abbrev listed_rooms : List Room
listed_rooms = record lobby { id = 3; created_at = 9 } ∷ lobby ∷ []

query_rooms_complete_example :
    listed (λ k. by_time) (query_rooms by_time 1 1 two_rooms).pagination.total_pages 1 two_rooms
    ≡ map (room_json two_rooms) listed_rooms
query_rooms_complete_example =
    query_rooms_complete by_time (λ k. by_time) 1 1 two_rooms listed_rooms
      (λ k. newest_first-Orders (λ (r : Room). r.created_at))
      (pick _ (pick _ nil (here [])) (there _ (here []))) ((omega arith, tt), (tt, tt))
      (omega arith)
