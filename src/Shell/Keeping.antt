-- ===== src/Shell/Keeping.antt =====
-- `touch`, `write` and `cat` of a file of the root directory.
use fat32_reimplementation.Base.{
  ℕ, ◌≤◌, ◌≡◌, refl, ap, ◌∙◌, List, [], length, All, take, min, some, done, ◌>>=◌, bind-done, ok,
  arith, >>=-eq-done, get_elem?_ext, get_elem?-take, get_elem?-none,
}
use fat32_reimplementation.Base.Text.{from_utf8}
use fat32_reimplementation.Base.Words.{IsByte}
use fat32_reimplementation.FileSystem.{Fat32FileSystem, IsVolume, cluster_size}
use fat32_reimplementation.FileSystem.Names.{short_name_to_string}
use fat32_reimplementation.FileSystem.Entry.{FileInfo}
use fat32_reimplementation.FileSystem.Directories.{create_file}
use fat32_reimplementation.FileSystem.Files.{write_file, text_result}
use fat32_reimplementation.FileSystem.Files.Keeping.{IsNew, create_file-read_file}
use fat32_reimplementation.Shell.{content, touch, write, cat}

take_all : (bytes : List ℕ) (k : ℕ) → length bytes ≤ k → take (min (length bytes) k) bytes ≡ bytes
take_all bytes k le =
    get_elem?_ext _ _
      λ i. ground (arith, get_elem?-take (min (length bytes) k) bytes i, get_elem?-none bytes i)

-- On a volume whose root has room for a file (`IsNew`: a first free slot without a pending long
-- name, nothing listed behind an end mark, a free cluster `n` below 50000, inside the image and not
-- the root, with all clusters from 2 up to it in use; a name with a short form of 11 bytes that
-- begins neither an end mark nor a deleted entry, whose text is one part of a path, has that short
-- form itself, and is neither listed in the root nor in a slot of it): when a session makes the file
-- with `touch`, then writes a text of valid UTF-8 to it, of at most a cluster, under its short name's
-- text, `cat` of that name, with fuel for one cluster, prints this text.
pub touch-cat :
    (to_uppercase : List ℕ → List ℕ) {fs : Fat32FileSystem}
    → IsVolume fs
    → (idx n : ℕ) (short_name name : List ℕ) (files : List FileInfo)
    → IsNew to_uppercase fs idx n short_name name files
    → (cluster : ℕ) (bytes shown : List ℕ) → All IsByte bytes
    → length bytes ≤ cluster_size fs
    → from_utf8 bytes ≡ some shown
    → (touch to_uppercase (record { fs = fs; current_cluster = cluster }) [] name
        >>= λ (_, session1).
            write to_uppercase session1 (short_name_to_string short_name) bytes >>= λ (_, session2).
            cat 1 session2 (short_name_to_string short_name))
      ≡ done (ok (content shown))
unfolding touch write cat
touch-cat to_uppercase {fs} v idx n short_name name files new cluster bytes shown good fits valid =
    let text = short_name_to_string short_name in
    let all = create_file-read_file to_uppercase v idx n short_name name files new bytes good in
    let ((r1, fs1), made, rest) = >>=-eq-done (create_file to_uppercase fs [] name) _ all in
    let ((r2, fs2), wrote, read) = >>=-eq-done (write_file to_uppercase fs1 text bytes) _ rest in
    let same : text_result (from_utf8 (take (min (length bytes) (cluster_size fs)) bytes))
        ≡ ok shown =
      ap (λ (b : List ℕ). text_result (from_utf8 b)) (take_all bytes (cluster_size fs) fits)
      ∙ ap text_result valid in
    bind-done _ (bind-done _ made refl)
      (bind-done _ (bind-done _ wrote refl) (bind-done _ (read ∙ ap done same) refl))
