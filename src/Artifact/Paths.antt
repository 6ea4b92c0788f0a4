-- ===== src/Artifact/Paths.antt =====
-- When two files have the same path (artifact/in_memory_service.go).
use adk_go.Artifact.{artifact_path, file_has_user_namespace, slash}
use adk_go.Base.{
  [], Text, All, Bool-cases, codes, if◌then◌else◌, ◌++◌, ◌≡◌, ◌≢◌, inl, true, arith, inr, ◌⊎◌, sym,
  ◌∙◌, ◌∷◌, refl,
}

abbrev NoSlash : Text → Type 0
NoSlash = All (λ c. c ≢ b'/')

abbrev user_folder : Text
user_folder = codes "user"

-- The folder of a file in its path.
abbrev folder : Text → Text → Text
folder session filename = if file_has_user_namespace filename then user_folder else session

path-shape :
    (app user session filename : Text)
    → artifact_path app user session filename
      ≡ app ++ (slash ++ (user ++ (slash ++ (folder session filename ++ (slash ++ filename)))))
unfolding artifact_path
path-shape app user session filename = elim (Bool-cases (file_has_user_namespace filename)) [
  | inl shared ↦ rw shared
  | inr own ↦ rw own
]

split_slash :
    (a b r t : Text)
    → NoSlash a
    → NoSlash b
    → a ++ (slash ++ r) ≡ b ++ (slash ++ t)
    → (a ≡ b) × (r ≡ t)
split_slash [] [] r t _ _ e = (refl, cc)
split_slash [] (d ∷ b) r t _ (hd, _) e = absurd (hd (cc))
split_slash (c ∷ a) [] r t (hc, _) _ e = absurd (hc (cc))
split_slash (c ∷ a) (d ∷ b) r t (hc, ha) (hd, hb) e =
    let (same, rest) = split_slash a b r t ha hb (cc) in (cc, rest)

folder-NoSlash : (session filename : Text) → NoSlash session → NoSlash (folder session filename)
folder-NoSlash session filename h = elim (Bool-cases (file_has_user_namespace filename)) [
  | inl shared ↦ rw shared (omega arith)
  | inr own ↦ rw own h
]

-- Where no app name, user ID or session ID holds a slash and no session ID is `user`, two files have
-- one path only if the app, the user and the file name are the same, and the session too unless the
-- file is in the user's namespace.
pub artifact_path_injective :
    (app user session filename app' user' session' filename' : Text)
    → NoSlash app × NoSlash user × NoSlash session
    → NoSlash app' × NoSlash user' × NoSlash session'
    → session ≢ codes "user"
    → session' ≢ codes "user"
    → artifact_path app user session filename ≡ artifact_path app' user' session' filename'
    → (app ≡ app')
      × (user ≡ user')
      × (filename ≡ filename')
      × ((file_has_user_namespace filename ≡ true) ⊎ (session ≡ session'))
artifact_path_injective app user session filename app' user' session' filename' (ha, hu, hs)
      (ha', hu', hs') n n' e =
    let shaped =
      sym (path-shape app user session filename) ∙ e ∙ path-shape app' user' session' filename' in
    let (same_app, e1) = split_slash app app' _ _ ha ha' shaped in
    let (same_user, e2) = split_slash user user' _ _ hu hu' e1 in
    let (same_folder, same_file) =
      split_slash (folder session filename) (folder session' filename') filename filename'
        (folder-NoSlash session filename hs) (folder-NoSlash session' filename' hs') e2 in
    (same_app, same_user, same_file, ground (arith, same_folder, same_file))
