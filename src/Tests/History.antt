-- ===== src/Tests/History.antt =====
-- The theorems on histories of store operations at the small store.
use happy_server_lite.Base.{List, [], ◌∷◌, refl, ◌==◌, lookup}
use happy_server_lite.Tests.Data.{
  alice, sid_1, sid_2, store_1, request_2, store_1-Indexed, store_1-Numbering,
}
use happy_server_lite.Store.History.{Operation, create, remove, history}
use happy_server_lite.Store.History.Kept.{IsSound}
use happy_server_lite.Store.History.Kept.{history-IsSound}

store_1-IsSound : IsSound store_1
store_1-IsSound = record { indexed = store_1-Indexed; numbering = store_1-Numbering }

-- a new session, and the deletion of the old one
abbrev operations_1 : List Operation
operations_1 = create request_2 sid_2 20 ∷ remove alice sid_1 21 ∷ []

history-IsSound_example : IsSound (history store_1 operations_1)
unfolding lookup ◌==◌
history-IsSound_example = history-IsSound store_1 operations_1 (refl, (tt, tt)) store_1-IsSound
