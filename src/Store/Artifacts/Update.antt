-- ===== src/Store/Artifacts/Update.antt =====
-- `UpdateArtifact` writes header and body together or not at all, and what its refusals report.
use happy_server_lite.Base.{
  ℕ, GoString, is_empty, ◌≡◌, ◌⊎◌, refl, Option, none, some, Bool, true, false, ◌&&◌, not, inl, inr,
  Bool-cases, insert, inc64, eqb_iff, arith,
}
use happy_server_lite.Model.{Artifact}
use happy_server_lite.Store.State.{Store, ok}
use happy_server_lite.Store.Artifacts.{
  ArtifactUpdate, ArtifactUpdateResult, artifact_key, get_artifact, version_differs, version_if,
  check_header, check_body, update_artifact, mismatch, go_on, reply,
}

-- One part of the update may go through: it is absent, or it names the current version.
abbrev pub accepts : Option GoString → Option ℕ → ℕ → Bool
accepts none expected current = true
accepts (some _) expected current = not (version_differs expected current)

abbrev pub written : Option GoString → GoString → GoString
written none old = old
written (some new) old = new

abbrev pub bumped : Option GoString → ℕ → ℕ
bumped none v = v
bumped (some _) v = inc64 v

abbrev pub updated : ArtifactUpdate → Artifact → ℕ → ℕ → Artifact
updated u a seq now = record a {
  header = written u.header a.header;
  header_version = bumped u.header a.header_version;
  body = written u.body a.body;
  body_version = bumped u.body a.body_version;
  seq = seq;
  updated_at = now;
}

abbrev pub committed : Store → ArtifactUpdate → Artifact → ℕ → Store
committed s u a now =
    let seq = inc64 s.artifact_seq in
    record s {
      artifact_seq = seq;
      artifacts_by_key =
          insert (artifact_key u.user_id u.artifact_id) (updated u a seq now) s.artifacts_by_key;
    }

-- The artifact after the header, as the body's check sees it.
abbrev with_header : Option GoString → Artifact → Artifact
with_header h a = record a {
  header = written h a.header;
  header_version = bumped h a.header_version;
}

abbrev with_body : Option GoString → Artifact → Artifact
with_body b a = record a { body = written b a.body; body_version = bumped b a.body_version }

check_header_cases :
    (h : Option GoString) (e : Option ℕ) (a : Artifact)
    → ((accepts h e a.header_version ≡ true) × (check_header h e a ≡ go_on (with_header h a)))
      ⊎ ((accepts h e a.header_version ≡ false) × (check_header h e a ≡ reply (mismatch a)))
unfolding check_header
check_header_cases none e a = inl (refl, refl)
check_header_cases (some h) e a = elim (Bool-cases (version_differs e a.header_version)) [
  | inl bad ↦ inr (ground arith, ground arith)
  | inr good ↦ inl (ground arith, ground arith)
]

check_body_cases :
    (b : Option GoString) (e : Option ℕ) (a : Artifact)
    → ((accepts b e a.body_version ≡ true) × (check_body b e a ≡ go_on (with_body b a)))
      ⊎ ((accepts b e a.body_version ≡ false) × (check_body b e a ≡ reply (mismatch a)))
unfolding check_body
check_body_cases none e a = inl (refl, refl)
check_body_cases (some b) e a = elim (Bool-cases (version_differs e a.body_version)) [
  | inl bad ↦ inr (ground arith, ground arith)
  | inr good ↦ inl (ground arith, ground arith)
]

module _ (s : Store) (u : ArtifactUpdate) (a : Artifact) (now : ℕ) where
  -- For an artifact that the user can get: if both parts name the current versions, both are written
  -- in one step, under the next sequence number; if either does not, nothing is written.
  pub update_artifact-atomic :
      is_empty u.user_id ≡ false
      → is_empty u.artifact_id ≡ false
      → get_artifact s u.user_id u.artifact_id ≡ some a
      → let both =
          accepts u.header u.expected_header_version a.header_version
          && accepts u.body u.expected_body_version a.body_version in
        let (s', result) = update_artifact s u now in
        ((both ≡ true)
          × (s' ≡ committed s u a now)
          × (result
              ≡ ok (record {
                success = true;
                header_version = version_if u.header (bumped u.header a.header_version);
                body_version = version_if u.body (bumped u.body a.body_version);
                current_header_version = none;
                current_body_version = none;
                current_header = none;
                current_body = none;
              })))
        ⊎ ((both ≡ false)
            × (s' ≡ s)
            × (res : ArtifactUpdateResult) × (result ≡ ok res)
            × (res.success ≡ false))
  unfolding update_artifact
  update_artifact-atomic named given found =
      elim (check_header_cases u.header u.expected_header_version a) [
        | inr (no_header, h) ↦ inr (ground arith, ground arith, mismatch a, ground arith, refl)
        | inl (header_ok, h) ↦
            let a' = with_header u.header a in
            elim (check_body_cases u.body u.expected_body_version a') [
              | inr (no_body, b) ↦ inr (ground arith, ground arith, mismatch a', ground arith, refl)
              | inl (body_ok, b) ↦ inl (ground arith, ground arith, ground arith)
            ]
      ]

  -- A refused body after an accepted header: the reply reports the header that the client sent, at a
  -- version one past the stored one, as the current state, though nothing was stored.
  pub update_artifact-reports_unstored :
      (header body : GoString)
      → is_empty u.user_id ≡ false
      → is_empty u.artifact_id ≡ false
      → get_artifact s u.user_id u.artifact_id ≡ some a
      → u.header ≡ some header
      → u.expected_header_version ≡ some a.header_version
      → u.body ≡ some body
      → version_differs u.expected_body_version a.body_version ≡ true
      → (update_artifact s u now ≡ (
        s,
        ok (record {
          success = false;
          header_version = none;
          body_version = none;
          current_header_version = some (inc64 a.header_version);
          current_body_version = some a.body_version;
          current_header = some header;
          current_body = some a.body;
        }),
      ))
  unfolding update_artifact
  update_artifact-reports_unstored header body named given found h eh b eb =
      ground (arith, eqb_iff a.header_version a.header_version)
