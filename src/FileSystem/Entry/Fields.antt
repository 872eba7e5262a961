-- ===== src/FileSystem/Entry/Fields.antt =====
-- The fields of the 32 bytes of an entry, and parsing them.
use fat32_reimplementation.Base.{ℕ, ◌≡◌, refl, List, get_or, get_elem?-some, length, done, arith}
use fat32_reimplementation.Base.Windows.{window, slice-window}
use fat32_reimplementation.Base.Words.{from_le_bytes}
use fat32_reimplementation.FileSystem.Entry.{FatDir, LongFileName, parse_dir, parse_lfn}

abbrev pub dir_of : List ℕ → FatDir
dir_of chunk = record {
  name = window chunk 0 11;
  attr = get_or chunk 11 0;
  first_cluster_high = from_le_bytes (window chunk 20 2);
  first_cluster_low = from_le_bytes (window chunk 26 2);
  size = from_le_bytes (window chunk 28 4);
}

abbrev pub lfn_of : List ℕ → LongFileName
lfn_of chunk = record {
  seq_num = get_or chunk 0 0;
  name_1 = window chunk 1 10;
  attr = get_or chunk 11 0;
  l_type = get_or chunk 12 0;
  chksum = get_or chunk 13 0;
  name_2 = window chunk 14 12;
  reserved_fch = from_le_bytes (window chunk 26 2);
  name_3 = window chunk 28 4;
}

module _ (chunk : List ℕ) (whole : length chunk ≡ 32) where
  pub parse_dir-dir_of : parse_dir chunk ≡ done (dir_of chunk)
  unfolding parse_dir
  parse_dir-dir_of =
      rw
        (
          slice-window chunk 0 11 (omega arith),
          get_elem?-some chunk 11 0 (omega arith),
          slice-window chunk 20 2 (omega arith),
          slice-window chunk 26 2 (omega arith),
          slice-window chunk 28 4 (omega arith),
        )
        refl

  pub parse_lfn-lfn_of : parse_lfn chunk ≡ done (lfn_of chunk)
  unfolding parse_lfn
  parse_lfn-lfn_of =
      rw
        (
          get_elem?-some chunk 0 0 (omega arith),
          get_elem?-some chunk 11 0 (omega arith),
          get_elem?-some chunk 12 0 (omega arith),
          get_elem?-some chunk 13 0 (omega arith),
          slice-window chunk 1 10 (omega arith),
          slice-window chunk 14 12 (omega arith),
          slice-window chunk 28 4 (omega arith),
          slice-window chunk 26 2 (omega arith),
        )
        refl
