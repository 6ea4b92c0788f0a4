-- ===== src/Artifact.antt =====
-- artifact/in_memory_service.go. An artifact, a `*genai.Part`, is a value of the parameter `V`; each
-- method holds the mutex for its whole body. The order in which `range` visits the map does not show:
-- the one loop over it sorts its result.
pub mod Paths
pub mod Versions
use adk_go.GoMap
use adk_go.GoMap.{GoMap, keys}
use adk_go.Base.{
  List, Text, [], ℕ, Bool, codes, if◌then◌else◌, suc, ℤ, ◌++◌, ◌∷◌, Outcome, has_prefix, length,
  negsuc, true, zero, Option, false, panic, pos, text_comparable, trim_prefix, get_elem?, ltb, ◌||◌,
  eqb, ◌&&◌, none, ok, some, ◌>>=◌,
}

pub record Artifacts (V : Type 0) : Type 0 where
  pub artifacts : GoMap Text (List V)

-- `fileHasUserNamespace`
unfoldable pub file_has_user_namespace : Text → Bool
file_has_user_namespace filename = has_prefix filename (codes "user:")

abbrev pub slash : Text
slash = codes "/"

-- `artifactPath`
unfoldable pub artifact_path : Text → Text → Text → Text → Text
unfolding file_has_user_namespace
artifact_path app user session filename =
    if file_has_user_namespace filename
    then app ++ (slash ++ (user ++ (codes "/user/" ++ filename)))
    else app ++ (slash ++ (user ++ (slash ++ (session ++ (slash ++ filename)))))

-- `slices.Sort` on strings, which compares bytes.
unfoldable text_le : Text → Text → Bool
text_le [] t = true
text_le (c ∷ s) [] = false
text_le (c ∷ s) (d ∷ t) = ltb c d || (eqb c d && text_le s t)

unfoldable insert_sorted : Text → List Text → List Text
unfolding text_le
insert_sorted t [] = t ∷ []
insert_sorted t (u ∷ us) =
    let rest = insert_sorted t us in if text_le t u then t ∷ u ∷ us else u ∷ rest

unfoldable sort_texts : List Text → List Text
unfolding insert_sorted
sort_texts [] = []
sort_texts (t ∷ ts) = insert_sorted t (sort_texts ts)

-- The loop of `ListArtifactKey`.
unfoldable collect_filenames : Text → Text → List Text → List Text
collect_filenames session_prefix user_prefix [] = []
collect_filenames session_prefix user_prefix (path ∷ paths) =
    let rest = collect_filenames session_prefix user_prefix paths in
    if has_prefix path session_prefix
    then trim_prefix path session_prefix ∷ rest
    else if has_prefix path user_prefix
    then trim_prefix path user_prefix ∷ rest
    else rest

-- `verList[i] = i` for each index.
unfoldable pub count_up : ℕ → ℕ → List ℕ
count_up from zero = []
count_up from (suc n) = from ∷ count_up (suc from) n

module _ {V : Type 0} where
  -- `NewInMemoryService()`
  abbrev no_artifacts : Artifacts V
  no_artifacts = record { artifacts = [] }

  -- `a.artifacts[path]`: the nil slice where there is no entry.
  abbrev pub versions_at : Artifacts V → Text → List V
  versions_at a path = elim (GoMap.get path a.artifacts) [ none ↦ [] | some vs ↦ vs ]

  -- `SaveArtifact`
  unfoldable pub save_artifact : Artifacts V → Text → Text → Text → Text → V → Artifacts V × ℕ
  unfolding artifact_path
  save_artifact a app user session filename artifact =
      let path = artifact_path app user session filename in
      let versions = versions_at a path in
      (
        record { artifacts = GoMap.set path (versions ++ artifact ∷ []) a.artifacts },
        length versions,
      )

  -- `versions[version]`
  unfoldable pub index : List V → ℤ → Outcome V
  index vs (negsuc i) = panic
  index vs (pos i) = elim (get_elem? vs i) [ none ↦ panic | some v ↦ ok v ]

  -- `len(versions) - 1`
  abbrev pub last_index : List V → ℤ
  last_index [] = negsuc 0
  last_index (v ∷ vs) = pos (length vs)

  -- The test `version >= 0` and the read behind it.
  unfoldable pub load_version : List V → ℤ → Outcome V
  unfolding index
  load_version vs (pos i) = index vs (last_index vs)
  load_version vs (negsuc i) = index vs (negsuc i)

  -- `LoadArtifact`: a nil artifact and no error where there is no entry.
  unfoldable pub load_artifact : Artifacts V → Text → Text → Text → Text → ℤ → Outcome (Option V)
  unfolding artifact_path load_version
  load_artifact a app user session filename version =
      elim (GoMap.get (artifact_path app user session filename) a.artifacts) [
        | none ↦ ok none
        | some versions ↦ load_version versions version >>= λ v. ok (some v)
      ]

  -- `ListArtifactKey`
  unfoldable list_artifact_key : Artifacts V → Text → Text → Text → List Text
  unfolding collect_filenames sort_texts
  list_artifact_key a app user session = sort_texts (
      collect_filenames (app ++ (slash ++ (user ++ (slash ++ (session ++ slash)))))
        (app ++ (slash ++ (user ++ codes "/user/"))) (keys a.artifacts))

  -- `DeleteArtifact`
  unfoldable pub delete_artifact : Artifacts V → Text → Text → Text → Text → Artifacts V
  unfolding artifact_path
  delete_artifact a app user session filename =
      let path = artifact_path app user session filename in
      elim (GoMap.get path a.artifacts) [
        | none ↦ a
        | some versions ↦ record { artifacts = GoMap.delete path a.artifacts }
      ]

  -- `ListVersions`: nil, which is empty, where there is no entry.
  unfoldable pub list_versions : Artifacts V → Text → Text → Text → Text → List ℕ
  unfolding artifact_path count_up
  list_versions a app user session filename =
      elim (GoMap.get (artifact_path app user session filename) a.artifacts) [
        | none ↦ []
        | some versions ↦ count_up 0 (length versions)
      ]
