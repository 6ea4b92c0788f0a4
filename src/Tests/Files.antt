-- ===== src/Tests/Files.antt =====
-- Runs of the artifact service and of the memory service.
use adk_go.GoMap
use adk_go.Tests.{shop, ann, first_id, visit}
use adk_go.Artifact.{
  Artifacts, artifact_path, file_has_user_namespace, save_artifact, load_artifact, list_versions,
  count_up,
}
use adk_go.Artifact.Versions.{load-save}
use adk_go.Memory.{new_memories, add_session_to_memory, search_memory}
use adk_go.Memory.Reachable.{start, Reach-forgets}
use adk_go.Base.{ℕ, ◌≡◌, refl, ok, panic, some, codes, [], ◌∷◌, pos, Text}

abbrev file : Text
file = codes "a.txt"

-- One file with two versions.
abbrev archive : Artifacts ℕ
archive = record { artifacts = (codes "shop/ann/s-1/a.txt", 4 ∷ 5 ∷ []) ∷ [] }

load-save_example :
    (load_artifact (save_artifact archive shop ann first_id file 6).0 shop ann first_id file (pos 0)
      ≡ ok (some 6))
    × ((save_artifact archive shop ann first_id file 6).1 ≡ 2)
    × (list_versions (save_artifact archive shop ann first_id file 6).0 shop ann first_id file
        ≡ 0 ∷ 1 ∷ 2 ∷ [])
unfolding GoMap.get artifact_path file_has_user_namespace save_artifact count_up
load-save_example = load-save archive shop ann first_id file 6 0

Reach-forgets_example :
    (add_session_to_memory new_memories visit ≡ panic)
    × (search_memory {V = ℕ} (λ t. t) new_memories shop ann (codes "hello") ≡ ok [])
Reach-forgets_example =
    Reach-forgets (λ t. t) new_memories visit shop ann (codes "hello") (start refl)
