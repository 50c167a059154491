-- ===== src/Tests/Sessions.antt =====
-- The theorems on sessions and messages at the small store.
use happy_server_lite.Base.{
  GoString, codes, [], ◌∷◌, ◌++◌, none, some, Bool, false, ◌≡◌, ◌≢◌, ◌↔◌, ◌⊎◌, refl, ◌==◌, lookup,
  insert, arith, inc64, In,
}
use happy_server_lite.Tests.Data.{
  alice, sid_1, sid_2, session_1, store_1, request_1, request_2, store_1-Indexed,
}
use happy_server_lite.Model.{Session, SessionMessage}
use happy_server_lite.Store.State.{user_tag_key, ok, err, session_not_found}
use happy_server_lite.Store.Sessions.{
  get_session, get_or_create_session, get_or_create_locked, list_sessions, accessible,
  refresh_session,
}
use happy_server_lite.Store.Sessions.Creation.{Created}
use happy_server_lite.Store.State.Keys.{NoBar}
use happy_server_lite.Store.Messages.{append_message, page_after, get_after, list_messages}
use happy_server_lite.Store.Messages.Conversation.{messages_of, count_of}
use happy_server_lite.Store.Messages.Conversation.{append_message-append}
use happy_server_lite.Store.Sessions.Creation.{
  get_or_create_session-Created, get_or_create_locked_again,
}
use happy_server_lite.Store.Sessions.Listing.{list_sessions-get_session}

alice-NoBar : NoBar alice
alice-NoBar = omega arith

append_message-append_example :
    let (s', result) = append_message store_1 alice sid_1 (codes "next") (codes "x2") 20 in
    ((get_session store_1 alice sid_1 ≡ none) × (result ≡ err session_not_found) × (s' ≡ store_1))
    ⊎ ((sess : Session) × (msg : SessionMessage) × (get_session store_1 alice sid_1 ≡ some sess)
        × (result ≡ ok msg)
        × (msg.seq ≡ inc64 (count_of store_1 sid_1))
        × (msg.content ≡ (codes "next"))
        × (messages_of s' sid_1 ≡ messages_of store_1 sid_1 ++ msg ∷ [])
        × (count_of s' sid_1 ≡ inc64 (count_of store_1 sid_1))
        × (s'.sessions_by_id ≡ store_1.sessions_by_id)
        × ((j : GoString)
            → j ≢ sid_1
            → (messages_of s' j ≡ messages_of store_1 j) × (count_of s' j ≡ count_of store_1 j)))
append_message-append_example =
    append_message-append store_1 alice sid_1 (codes "next") (codes "x2") 20

-- a page too large to be allocated
list_messages_panics : list_messages store_1 alice sid_1 0 4000000000000 ≡ none
unfolding list_messages get_after page_after get_session lookup ◌==◌ accessible
list_messages_panics = refl

get_or_create_session-Created_example :
    let (s', result) = get_or_create_session store_1 request_2 sid_2 20 in
    (sess : Session) × (created : Bool) × (result ≡ ok (sess, created))
    × Created store_1 request_2 s' sess created
unfolding lookup ◌==◌
get_or_create_session-Created_example =
    get_or_create_session-Created store_1 request_2 sid_2 20 store_1-Indexed refl refl refl

get_or_create_locked_again_example :
    let (s', sess, created) = get_or_create_locked store_1 request_1 sid_2 20 in
    let (s2, sess2, created2) = get_or_create_locked s' request_1 sid_2 21 in
    (sess2.id ≡ sess.id) × (created2 ≡ false)
unfolding get_or_create_locked refresh_session lookup insert ◌==◌ user_tag_key
get_or_create_locked_again_example =
    get_or_create_locked_again store_1 request_1 request_1 sid_2 sid_2 20 21 store_1-Indexed refl
      refl refl refl

list_sessions-get_session_example :
    In session_1 (list_sessions store_1 alice)
    ↔ (get_session store_1 alice session_1.id ≡ some session_1)
unfolding lookup ◌==◌
list_sessions-get_session_example =
    list_sessions-get_session store_1 alice session_1 ((refl, tt), (refl, tt))
