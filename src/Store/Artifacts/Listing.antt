-- ===== src/Store/Artifacts/Listing.antt =====
-- `ListArtifacts` shows the artifacts that `GetArtifact` finds, in an order that the order of the map
-- has no influence on.
use mathlib.Core.List.Permᴰ
use happy_server_lite.Base.{
  GoString, ==_iff, str_lt_tri, str_lt_asym, str_lt_cotrans, ◌≡◌, ◌↔◌, true, false, some, In,
  In-Permᴰ, In-filter_of, of_In-filter, filter-Permᴰ, sort_slice-Permᴰ, sort_slice-eq_of_Permᴰ,
  IsOrder, Separated, Unique, OwnKeys, In-values_of_lookup, lookup_of_In-values, filter, values,
  lookup, List, arith, Permᴰ,
}
use happy_server_lite.Model.{Artifact}
use happy_server_lite.Store.State.{Store}
use happy_server_lite.Store.Artifacts.{
  accessible, artifact_key, before, get_artifact, list_artifacts,
}

before-IsOrder : IsOrder before
unfolding before
before-IsOrder = record {
  asym = λ x y h. ground (arith, str_lt_asym x.id y.id);
  cotrans = λ x y z h k. ground (arith, str_lt_cotrans x.id y.id z.id);
}

-- Every artifact is stored once, under the key of its user and identifier.
abbrev pub Keyed : Store → Type 0
Keyed s =
    Unique s.artifacts_by_key
    × OwnKeys (λ (a : Artifact). artifact_key a.user_id a.id) s.artifacts_by_key

accessible_iff :
    (user_id : GoString) (a : Artifact)
    → accessible user_id a ≡ true
    → (a.user_id ≡ user_id) × (a.deleted ≡ false)
unfolding accessible
accessible_iff user_id a h = ground (arith, ==_iff a.user_id user_id)

module _ (s : Store) (user_id : GoString) (v : Keyed s) where
  abbrev entries : List Artifact
  entries = values s.artifacts_by_key

  visible-lookup :
      (x : Artifact)
      → In x (filter (accessible user_id) entries)
      → (lookup (artifact_key user_id x.id) s.artifacts_by_key ≡ some x)
        × (accessible user_id x ≡ true)
  visible-lookup x i =
      let (j, mine) = of_In-filter (accessible user_id) x entries i in
      let found =
        lookup_of_In-values (λ (a : Artifact). artifact_key a.user_id a.id) x s.artifacts_by_key v.1
          v.0 j in
      (rw (← (accessible_iff user_id x mine).0) found, mine)

  -- Where artifacts are stored once and under their own keys, one is listed for a user exactly if the user can get it by its identifier.
  pub list_artifacts-get_artifact :
      (x : Artifact) → In x (list_artifacts s user_id) ↔ (get_artifact s user_id x.id ≡ some x)
  unfolding list_artifacts get_artifact
  list_artifacts-get_artifact x =
      let sorted = sort_slice-Permᴰ before (filter (accessible user_id) entries) in
      (
        λ i.
            let (found, mine) = visible-lookup x (In-Permᴰ x sorted i) in
            ground (arith, found, mine),
        λ h. In-Permᴰ x (Permᴰ.symm sorted) (
            In-filter_of (accessible user_id) x entries
              (In-values_of_lookup (artifact_key user_id x.id) x s.artifacts_by_key
                (ground (arith, h)))
              (ground (arith, h))),
      )

  visible-Separated : Separated before (filter (accessible user_id) entries)
  unfolding before
  visible-Separated x y i j p q =
      let a = visible-lookup x i in
      let b = visible-lookup y j in
      let e : x.id ≡ y.id = ground (arith, p, q, str_lt_tri x.id y.id) in cc (a.0, b.0, e)

  -- Where artifacts are stored once and under their own keys, the list is the same whatever the order
  -- in which the map is visited.
  list_artifacts-eq_of_Permᴰ :
      (t : Store)
      → Permᴰ entries (values t.artifacts_by_key)
      → list_artifacts s user_id ≡ list_artifacts t user_id
  unfolding list_artifacts
  list_artifacts-eq_of_Permᴰ t p =
      sort_slice-eq_of_Permᴰ before-IsOrder (filter-Permᴰ (accessible user_id) p) visible-Separated
