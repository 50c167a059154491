-- ===== src/Tests/Artifacts.antt =====
-- The theorems on artifacts at the small store.
use happy_server_lite.Base.{
  codes, none, some, true, false, ◌&&◌, ◌≡◌, ◌↔◌, ◌⊎◌, refl, ◌==◌, lookup, inc64, In,
}
use happy_server_lite.Tests.Data.{alice, artifact_1, store_1}
use happy_server_lite.Store.State.{ok}
use happy_server_lite.Store.Artifacts.{
  ArtifactUpdate, ArtifactUpdateResult, update_artifact, get_artifact, list_artifacts, artifact_key,
  version_if, version_differs, accessible,
}
use happy_server_lite.Store.Artifacts.Update.{accepts, bumped, committed}
use happy_server_lite.Store.Artifacts.Update.{
  update_artifact-atomic, update_artifact-reports_unstored,
}
use happy_server_lite.Store.Artifacts.Listing.{list_artifacts-get_artifact}

-- a header for the stored version, and a body for a version that is not
abbrev stale_body : ArtifactUpdate
stale_body = record {
  user_id = alice;
  artifact_id = codes "a1";
  header = some (codes "new head");
  expected_header_version = some 1;
  body = some (codes "new body");
  expected_body_version = some 7;
}

stored_artifact_1 : get_artifact store_1 alice (codes "a1") ≡ some artifact_1
unfolding get_artifact accessible artifact_key lookup ◌==◌
stored_artifact_1 = refl

update_artifact-atomic_example :
    let both =
      accepts stale_body.header stale_body.expected_header_version artifact_1.header_version
      && accepts stale_body.body stale_body.expected_body_version artifact_1.body_version in
    let (s', result) = update_artifact store_1 stale_body 20 in
    ((both ≡ true)
      × (s' ≡ committed store_1 stale_body artifact_1 20)
      × (result
          ≡ ok (record {
            success = true;
            header_version =
                version_if stale_body.header (bumped stale_body.header artifact_1.header_version);
            body_version =
                version_if stale_body.body (bumped stale_body.body artifact_1.body_version);
            current_header_version = none;
            current_body_version = none;
            current_header = none;
            current_body = none;
          })))
    ⊎ ((both ≡ false)
        × (s' ≡ store_1)
        × (res : ArtifactUpdateResult) × (result ≡ ok res)
        × (res.success ≡ false))
update_artifact-atomic_example =
    update_artifact-atomic store_1 stale_body artifact_1 20 refl refl stored_artifact_1

update_artifact-reports_unstored_example :
    (update_artifact store_1 stale_body 20 ≡ (
      store_1,
      ok (record {
        success = false;
        header_version = none;
        body_version = none;
        current_header_version = some (inc64 artifact_1.header_version);
        current_body_version = some artifact_1.body_version;
        current_header = some (codes "new head");
        current_body = some artifact_1.body;
      }),
    ))
unfolding version_differs
update_artifact-reports_unstored_example =
    update_artifact-reports_unstored store_1 stale_body artifact_1 20 (codes "new head")
      (codes "new body") refl refl stored_artifact_1 refl refl refl refl

list_artifacts-get_artifact_example :
    In artifact_1 (list_artifacts store_1 alice)
    ↔ (get_artifact store_1 alice artifact_1.id ≡ some artifact_1)
unfolding lookup ◌==◌ artifact_key
list_artifacts-get_artifact_example =
    list_artifacts-get_artifact store_1 alice ((refl, tt), (refl, tt)) artifact_1
