-- ===== src/Store/Sessions/Index.antt =====
-- The index of the sessions by user and tag: it names exactly the live sessions, each under its own
-- key, so that a key has one live session at most.
use happy_server_lite.Base.{
  GoString, ◌==◌, ==_iff, ◌≡◌, none, some, true, false, inl, inr, Bool-cases, Map, lookup, insert,
  delete, lookup-insert, lookup-delete, arith,
}
use happy_server_lite.Model.{Session}
use happy_server_lite.Store.State.{user_tag_key}

abbrev pub key_of : Session → GoString
key_of sess = user_tag_key sess.user_id sess.tag

pub record IsIndexed (sessions : Map Session) (tags : Map GoString) : Type 0 where
  pub own_id : (sid : GoString) (sess : Session) → lookup sid sessions ≡ some sess → sess.id ≡ sid
  pub live_indexed :
      (sid : GoString) (sess : Session)
      → lookup sid sessions ≡ some sess
      → sess.deleted ≡ false
      → lookup (key_of sess) tags ≡ some sid
  pub indexed_live :
      (k sid : GoString)
      → lookup k tags ≡ some sid
      → (sess : Session) × (lookup sid sessions ≡ some sess)
        × (sess.deleted ≡ false)
        × (key_of sess ≡ k)

module _ {sessions : Map Session} {tags : Map GoString} (v : IsIndexed sessions tags) where
  -- A session may change in all but its identity and its deletion mark.
  pub IsIndexed-replace :
      (sid : GoString) (sess sess' : Session)
      → lookup sid sessions ≡ some sess
      → sess'.id ≡ sess.id
      → key_of sess' ≡ key_of sess
      → sess'.deleted ≡ sess.deleted
      → IsIndexed (insert sid sess' sessions) tags
  IsIndexed-replace sid sess sess' e i k d = record {
    own_id = λ j x h. ground (
      arith,
      lookup-insert j sid sess' sessions,
      ==_iff sid j,
      v.own_id j x,
      v.own_id sid sess e,
    );
    live_indexed = λ j x h live. ground (
      arith,
      lookup-insert j sid sess' sessions,
      ==_iff sid j,
      v.live_indexed j x,
      v.live_indexed sid sess e,
    );
    indexed_live = λ q j h.
        let (x, found, live, own) = v.indexed_live q j h in
        elim (Bool-cases (sid == j)) [
          | inl here ↦ (
            sess',
            ground (arith, lookup-insert j sid sess' sessions),
            ground (arith, ==_iff sid j),
            ground (arith, ==_iff sid j),
          )
          | inr there ↦ (x, ground (arith, lookup-insert j sid sess' sessions), live, own)
        ];
  }

  -- A new session under a fresh identifier takes a key that is free.
  pub IsIndexed-create :
      (sid : GoString) (sess : Session)
      → lookup sid sessions ≡ none
      → sess.id ≡ sid
      → sess.deleted ≡ false
      → lookup (key_of sess) tags ≡ none
      → IsIndexed (insert sid sess sessions) (insert (key_of sess) sid tags)
  IsIndexed-create sid sess fresh i d free = record {
    own_id = λ j x h. ground (arith, lookup-insert j sid sess sessions, ==_iff sid j, v.own_id j x);
    live_indexed = λ j x h live. ground (
      arith,
      lookup-insert j sid sess sessions,
      lookup-insert (key_of x) (key_of sess) sid tags,
      ==_iff sid j,
      ==_iff (key_of sess) (key_of x),
      v.live_indexed j x,
    );
    indexed_live = λ q j h. elim (Bool-cases (key_of sess == q)) [
      | inl here ↦ (
        sess,
        ground (
          arith,
          lookup-insert q (key_of sess) sid tags,
          lookup-insert j sid sess sessions,
          ==_iff sid j,
        ),
        d,
        ground (arith, ==_iff (key_of sess) q),
      )
      | inr there ↦
          let (x, found, live, own) =
            v.indexed_live q j (ground (arith, lookup-insert q (key_of sess) sid tags)) in
          (x, ground (arith, lookup-insert j sid sess sessions, ==_iff sid j), live, own)
    ];
  }

  -- A deletion marks a live session and frees its key.
  pub IsIndexed-delete :
      (sid : GoString) (sess sess' : Session)
      → lookup sid sessions ≡ some sess
      → sess.deleted ≡ false
      → sess'.id ≡ sess.id
      → sess'.deleted ≡ true
      → IsIndexed (insert sid sess' sessions) (delete (key_of sess) tags)
  IsIndexed-delete sid sess sess' e live i d = record {
    own_id = λ j x h. ground (
      arith,
      lookup-insert j sid sess' sessions,
      ==_iff sid j,
      v.own_id j x,
      v.own_id sid sess e,
    );
    live_indexed = λ j x h alive. ground (
      arith,
      lookup-insert j sid sess' sessions,
      lookup-delete (key_of x) (key_of sess) tags,
      ==_iff sid j,
      ==_iff (key_of sess) (key_of x),
      v.live_indexed j x,
      v.live_indexed sid sess e live,
    );
    indexed_live = λ q j h.
        let (x, found, alive, own) =
          v.indexed_live q j (ground (arith, lookup-delete q (key_of sess) tags)) in
        (
          x,
          ground (
            arith,
            lookup-insert j sid sess' sessions,
            lookup-delete q (key_of sess) tags,
            ==_iff sid j,
            ==_iff (key_of sess) q,
          ),
          alive,
          own,
        );
  }
