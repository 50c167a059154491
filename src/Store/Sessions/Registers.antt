-- ===== src/Store/Sessions/Registers.antt =====
-- The metadata and the agent state of a session are registers: refinement theorems.
use happy_server_lite.Base.{
  ℕ, GoString, ◌≡◌, ◌≢◌, refl, inc64, Option, none, inl, inr, Option-cases, arith, [],
}
use happy_server_lite.Model.{Session}
use happy_server_lite.Store.State.{Store}
use happy_server_lite.Store.Register.{write}
use happy_server_lite.Store.Sessions.{
  get_session, update_session_metadata, update_session_agent_state,
}
use happy_server_lite.Store.Sessions.Views.{
  metadata_of, agent_state_of, get_session-put_session_self, get_session-put_session_ne,
}

module _ (s : Store) (user_id sid : GoString) (expected : ℕ) where
  -- The reply and the new metadata are those of a register write, the agent state of the session
  -- stays, and so does every other session that anyone can read.
  pub update_session_metadata-write :
      (metadata : GoString) (now : ℕ)
      → let (s', outcome) = update_session_metadata s user_id sid expected metadata now in
        ((outcome, metadata_of (get_session s' user_id sid))
          ≡ write [] expected metadata (metadata_of (get_session s user_id sid)))
        × (agent_state_of (get_session s' user_id sid) ≡ agent_state_of (get_session s user_id sid))
        × ((v j : GoString) → j ≢ sid → get_session s' v j ≡ get_session s v j)
  unfolding update_session_metadata write
  update_session_metadata-write metadata now = elim (Option-cases (get_session s user_id sid)) [
    | inl e ↦ (ground arith, ground arith, λ v j h. ground arith)
    | inr (sess, e) ↦
        let sess' : Session = record sess {
          metadata = metadata;
          metadata_version = inc64 sess.metadata_version;
          updated_at = now;
        } in
        let kept = get_session-put_session_self s user_id sid sess sess' e refl refl in
        (
          ground (arith, kept),
          ground (arith, kept),
          λ v j h. ground (arith, get_session-put_session_ne s sid sess' v j h),
        )
  ]

  -- The reply and the new agent state are those of a register write, the metadata of the session
  -- stays, and so does every other session that anyone can read.
  pub update_session_agent_state-write :
      (agent_state : Option GoString) (now : ℕ)
      → let (s', outcome) = update_session_agent_state s user_id sid expected agent_state now in
        ((outcome, agent_state_of (get_session s' user_id sid))
          ≡ write none expected agent_state (agent_state_of (get_session s user_id sid)))
        × (metadata_of (get_session s' user_id sid) ≡ metadata_of (get_session s user_id sid))
        × ((v j : GoString) → j ≢ sid → get_session s' v j ≡ get_session s v j)
  unfolding update_session_agent_state write
  update_session_agent_state-write agent_state now =
      elim (Option-cases (get_session s user_id sid)) [
        | inl e ↦ (ground arith, ground arith, λ v j h. ground arith)
        | inr (sess, e) ↦
            let sess' : Session = record sess {
              agent_state = agent_state;
              agent_state_version = inc64 sess.agent_state_version;
              updated_at = now;
            } in
            let kept = get_session-put_session_self s user_id sid sess sess' e refl refl in
            (
              ground (arith, kept),
              ground (arith, kept),
              λ v j h. ground (arith, get_session-put_session_ne s sid sess' v j h),
            )
      ]
