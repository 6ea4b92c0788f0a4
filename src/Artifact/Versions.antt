-- ===== src/Artifact/Versions.antt =====
-- The versions of one artifact.
use adk_go.GoMap.Laws.{get-set, get-delete}
use adk_go.Artifact.{
  Artifacts, artifact_path, versions_at, save_artifact, load_artifact, load_version, index,
  last_index, delete_artifact, list_versions, count_up,
}
use adk_go.Base.{
  List, Text, ℕ, ◌++◌, pos, ◌∷◌, [], ◌≡◌, ok, refl, some, length, suc, arith, length-concat, ==_iff,
  get_elem?-append_length, text_comparable, ℤ, none, ◌≢◌,
}

module _ {V : Type 0} where
  index-last : (vs : List V) (v : V) → index (vs ++ v ∷ []) (last_index (vs ++ v ∷ [])) ≡ ok v
  unfolding index
  index-last [] v = refl
  index-last (w ∷ vs) v = rw (length-concat vs v, index) (rw (get_elem?-append_length vs v, index))

  -- `SaveArtifact` returns the number of versions before it. Afterwards a load of the same file
  -- returns the artifact just saved whichever version that is not negative it asks for, and the
  -- versions listed are those from 0 to the one returned.
  pub load-save :
      (a : Artifacts V) (app user session filename : Text) (v : V) (version : ℕ)
      → (load_artifact
            (save_artifact a app user session filename v).0
            app
            user
            session
            filename
            (pos version)
          ≡ ok (some v))
        × ((save_artifact a app user session filename v).1
            ≡ length (versions_at a (artifact_path app user session filename)))
        × (list_versions (save_artifact a app user session filename v).0 app user session filename
            ≡ count_up 0 (suc (save_artifact a app user session filename v).1))
  unfolding save_artifact load_artifact load_version list_versions
  load-save a app user session filename v version =
      let path = artifact_path app user session filename in
      let old = versions_at a path in
      let facts = get-set path path (old ++ v ∷ []) a.artifacts in
      (
        ground (arith, facts, ==_iff path path, index-last old v),
        refl,
        ground (arith, facts, ==_iff path path, length-concat old v),
      )

  -- `DeleteArtifact` of a file removes all its versions: a load finds none, and none is listed.
  pub load-delete :
      (a : Artifacts V) (app user session filename : Text) (version : ℤ)
      → (load_artifact
            (delete_artifact a app user session filename)
            app
            user
            session
            filename
            version
          ≡ ok none)
        × (list_versions (delete_artifact a app user session filename) app user session filename
            ≡ [])
  unfolding delete_artifact load_artifact list_versions
  load-delete a app user session filename version =
      let path = artifact_path app user session filename in
      let facts = get-delete path path a.artifacts in
      (ground (arith, facts, ==_iff path path), ground (arith, facts, ==_iff path path))

  -- Saving under one path changes nothing that is read under another.
  pub load-save_ne :
      (a : Artifacts V) (app user session filename app' user' session' filename' : Text) (v : V)
      (version : ℤ)
      → artifact_path app user session filename ≢ artifact_path app' user' session' filename'
      → load_artifact
          (save_artifact a app user session filename v).0
          app'
          user'
          session'
          filename'
          version
        ≡ load_artifact a app' user' session' filename' version
  unfolding load_artifact save_artifact
  load-save_ne a app user session filename app' user' session' filename' v version ne =
      let path = artifact_path app user session filename in
      let path' = artifact_path app' user' session' filename' in
      ground
        (arith, get-set path path' (versions_at a path ++ v ∷ []) a.artifacts, ==_iff path path')
