-- ===== src/Tests/Fixture.antt =====
-- A volume of four clusters, each of one sector of 128 bytes. Cluster 2 is the root directory, with
-- a file of cluster 3, TEST.TXT; clusters 4 and 5 are free.
use fat32_reimplementation.Base.{ℕ, List, [], ◌∷◌, ◌++◌, replicate}
use fat32_reimplementation.FileSystem.{Fat32FileSystem}

abbrev pub text : List ℕ
text = b'h' ∷ b'e' ∷ b'l' ∷ b'l' ∷ b'o' ∷ []

abbrev pub test_name : List ℕ
test_name = b'T' ∷ b'E' ∷ b'S' ∷ b'T' ∷ b'.' ∷ b'T' ∷ b'X' ∷ b'T' ∷ []

abbrev pub boot_sector : List ℕ
boot_sector =
    replicate 11 0
    ++ (128 ∷ 0 ∷ 1 ∷ 1 ∷ 0 ∷ 1 ∷ replicate 19 0)
    ++ (1 ∷ 0 ∷ 0 ∷ 0 ∷ replicate 4 0)
    ++ (2 ∷ 0 ∷ 0 ∷ 0 ∷ replicate 80 0)

abbrev pub end_of_chain : List ℕ
end_of_chain = 0xFF ∷ 0xFF ∷ 0xFF ∷ 0x0F ∷ []

abbrev table : List ℕ
table = replicate 8 0xFF ++ (end_of_chain ++ (end_of_chain ++ replicate 112 0))

abbrev test_entry : List ℕ
test_entry =
    (b'T' ∷ b'E' ∷ b'S' ∷ b'T' ∷ b' ' ∷ b' ' ∷ b' ' ∷ b' ' ∷ b'T' ∷ b'X' ∷ b'T' ∷ 0x20 ∷ [])
    ++ (replicate 14 0 ++ (3 ∷ 0 ∷ 5 ∷ 0 ∷ 0 ∷ 0 ∷ []))

abbrev pub image : List ℕ
image =
    boot_sector
    ++ (table ++ ((test_entry ++ replicate 96 0) ++ ((text ++ replicate 123 0) ++ replicate 256 0)))

abbrev pub volume : Fat32FileSystem
volume = record {
  disk = image;
  bytes_per_sector = 128;
  sectors_per_cluster = 1;
  fat_sector = 1;
  data_sector = 2;
  root_cluster = 2;
}

-- The same volume with a directory, DOCS, of cluster 4.
abbrev pub docs_name : List ℕ
docs_name = b'D' ∷ b'O' ∷ b'C' ∷ b'S' ∷ []

abbrev docs_entry : List ℕ
docs_entry = docs_name ++ (replicate 7 b' ' ++ (0x10 ∷ (replicate 14 0 ++ (4 ∷ 0 ∷ replicate 4 0))))

abbrev pub nested : Fat32FileSystem
nested = record volume {
  disk =
      boot_sector
      ++ (table
          ++ ((docs_entry ++ (test_entry ++ replicate 64 0))
              ++ (replicate 128 0 ++ ((test_entry ++ replicate 96 0) ++ replicate 128 0))));
}
