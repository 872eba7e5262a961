-- ===== src/Shell/Moving.antt =====
-- `cd` and the listing commands.
use fat32_reimplementation.Base.{
  ℕ, ◌≡◌, refl, ap, sym, ◌∙◌, List, Bool-cases, true, false, Option, none, some, Run, done, Result,
  ok, err, inl, inr, arith, bind-done, >>=-eq-done,
}
use fat32_reimplementation.FileSystem.{Fat32FileSystem}
use fat32_reimplementation.FileSystem.Entry.{FileInfo}
use fat32_reimplementation.FileSystem.FilePath.{parse_path}
use fat32_reimplementation.Shell.{ShellSession, cd, ls, print_directory}

abbrev moved : ShellSession → Run (Result (Unit {0}) × ShellSession)
moved session = done (ok tt, session)

-- The end of `cd`.
cd_to : ShellSession → Option FileInfo → Run (Result (Unit {0}) × ShellSession)
cd_to session found = elim found [
  | none ↦ done (err "Entry not found", session)
  | some file ↦ elim file.is_directory [
    | false ↦ done (err "Not a directory", session)
    | true ↦ done (ok tt, record session { current_cluster = file.start_cluster })
  ]
]

abbrev Went : Fat32FileSystem → Option FileInfo → ShellSession → Type 0
Went fs found session' =
    (file : FileInfo) × (found ≡ some file)
    × (session' ≡ record { fs = fs; current_cluster = file.start_cluster })

cd_found :
    (session session' : ShellSession) (found : Option FileInfo)
    → cd_to session found ≡ moved session'
    → Went session.fs found session'
unfolding cd_to
cd_found session session' none e = absurd (ground arith)
cd_found session session' (some file) e = elim (Bool-cases file.is_directory) [
  | inl directory ↦
      let gone = rw (cd_to, directory) at e in
      let same : record session { current_cluster = file.start_cluster } ≡ session' = cc in
      (file, refl, sym same)
  | inr no_directory ↦ let refused = rw (cd_to, no_directory) at e in absurd (ground arith)
]

-- A `cd` that succeeds found an entry and went to its cluster.
cd_ok :
    (session session' : ShellSession) (path : List ℕ)
    → cd session path ≡ moved session'
    → (file : FileInfo) × (parse_path session.fs path (some session.current_cluster)
        ≡ done (some file))
      × (session' ≡ record session { current_cluster = file.start_cluster })
unfolding cd cd_to
cd_ok session session' path e =
    let (found, e_found, rest) =
      >>=-eq-done (parse_path session.fs path (some session.current_cluster)) _ e in
    let (file, is_some, same) = cd_found session session' found rest in
    (file, e_found ∙ ap (λ (o : Option FileInfo). done o) is_some, same)

-- When `cd path` succeeds, the path's directory is listed by `ls path` before it and by `ls` after
-- it with the same result.
pub cd-ls :
    (session session' : ShellSession) (path : List ℕ)
    → cd session path ≡ done (ok tt, session')
    → ls session (some path) ≡ ls session' none
unfolding ls
cd-ls session session' path e =
    let (file, e_found, same) = cd_ok session session' path e in
    bind-done _ e_found
      (ap (λ (s : ShellSession). print_directory s.fs s.current_cluster) (sym same))
