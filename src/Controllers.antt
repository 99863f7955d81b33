-- ===== src/Controllers.antt =====
-- What the controllers of src/controllers read and write: the state that they share with the
-- sockets, the cache and the files, and how a call on a part of it is a call on the whole. A
-- controller's result is the body of its answer, or the error that it hands to `next`.
pub mod Rooms
pub mod Recordings
pub mod Accounts
use smartmeet_backend.Prelude.{ℕ, Bool, true, List, Option, Action, Result}
use smartmeet_backend.Models.{Database}
use smartmeet_backend.RoomService.Cache.{Redis}
use smartmeet_backend.StorageService.{Storage}
use smartmeet_backend.Sockets.State.{Server, on_db}

pub record App : Type 0 where
  pub server : Server
  pub redis : Redis
  pub storage : Storage
  -- `req.app.get('io')` is there
  pub has_io : Bool

unfoldable pub on_server : {A : Type 0} → Action Server A → Action App A
on_server m s = let (r, server) = m s.server in (r, record s { server = server })

unfoldable pub on_database : {A : Type 0} → Action Database A → Action App A
unfolding on_server on_db
on_database m = on_server (on_db m)

unfoldable pub on_storage : {A : Type 0} → Action Storage A → Action App A
on_storage m s = let (r, storage) = m s.storage in (r, record s { storage = storage })
