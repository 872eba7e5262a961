-- ===== src/FileSystem/Entry.antt =====
-- src/file_system.rs: the entries of a directory, as they stand on the image and as the program
-- sees them.
pub mod Fields
use fat32_reimplementation.Base.{
  ℕ, ◌+◌, ◌*◌, ◌^◌, bit_or, List, Bool, get_elem?, Run, done, ◌>>=◌, unwrap,
}
use fat32_reimplementation.Base.Windows.{slice}
use fat32_reimplementation.Base.Words.{from_le_bytes}

-- A short entry. The integers are `u8`, `u16`, `u16` and `u32`.
pub record FatDir : Type 0 where
  pub name : List ℕ
  pub attr : ℕ
  pub first_cluster_high : ℕ
  pub first_cluster_low : ℕ
  pub size : ℕ

pub data DirOffsets : Type 0 where
  name attr fst_clus_hi fst_clus_lo file_size : DirOffsets

abbrev pub dir_offset : DirOffsets → ℕ
dir_offset name = 0
dir_offset attr = 11
dir_offset fst_clus_hi = 20
dir_offset fst_clus_lo = 26
dir_offset file_size = 28

unfoldable pub read_u16 : List ℕ → DirOffsets → Run ℕ
read_u16 bytes offset = do field ← slice bytes (dir_offset offset) 2; done (from_le_bytes field)

unfoldable pub read_u32 : List ℕ → DirOffsets → Run ℕ
read_u32 bytes offset = do field ← slice bytes (dir_offset offset) 4; done (from_le_bytes field)

-- `FatDir::new`.
unfoldable pub parse_dir : List ℕ → Run FatDir
unfolding read_u16 read_u32
parse_dir bytes = do
  name11 ← slice bytes (dir_offset name) 11
  attributes ← unwrap (get_elem? bytes (dir_offset attr))
  high ← read_u16 bytes fst_clus_hi
  low ← read_u16 bytes fst_clus_lo
  length_in_bytes ← read_u32 bytes file_size
  done (record {
    name = name11;
    attr = attributes;
    first_cluster_high = high;
    first_cluster_low = low;
    size = length_in_bytes;
  })

-- A long name entry, with a fragment of the name in three fields.
pub record LongFileName : Type 0 where
  pub seq_num : ℕ
  pub name_1 : List ℕ
  pub attr : ℕ
  pub l_type : ℕ
  pub chksum : ℕ
  pub name_2 : List ℕ
  pub reserved_fch : ℕ
  pub name_3 : List ℕ

pub data LfnOffsets : Type 0 where
  ord name1 attr l_type chk_sum name2 reserved_fch name3 : LfnOffsets

abbrev pub lfn_offset : LfnOffsets → ℕ
lfn_offset ord = 0
lfn_offset name1 = 1
lfn_offset attr = 11
lfn_offset l_type = 12
lfn_offset chk_sum = 13
lfn_offset name2 = 14
lfn_offset reserved_fch = 26
lfn_offset name3 = 28

-- `LongFileName::new`.
unfoldable pub parse_lfn : List ℕ → Run LongFileName
parse_lfn bytes = do
  seq ← unwrap (get_elem? bytes (lfn_offset ord))
  attributes ← unwrap (get_elem? bytes (lfn_offset LfnOffsets.attr))
  kind ← unwrap (get_elem? bytes (lfn_offset l_type))
  checksum ← unwrap (get_elem? bytes (lfn_offset chk_sum))
  first ← slice bytes (lfn_offset name1) 10
  second ← slice bytes (lfn_offset name2) 12
  third ← slice bytes (lfn_offset name3) 4
  reserved ← slice bytes (lfn_offset reserved_fch) 2
  done (record {
    seq_num = seq;
    name_1 = first;
    attr = attributes;
    l_type = kind;
    chksum = checksum;
    name_2 = second;
    reserved_fch = from_le_bytes reserved;
    name_3 = third;
  })

-- A file or directory as the program sees it.
pub record FileInfo : Type 0 where
  pub name : List ℕ
  pub is_directory : Bool
  pub size : ℕ
  pub start_cluster : ℕ

abbrev pub file_info : List ℕ → Bool → ℕ → ℕ → FileInfo
file_info file_name is_directory size start_cluster = record {
  name = file_name;
  is_directory = is_directory;
  size = size;
  start_cluster = start_cluster;
}

-- `(high as u32) << 16 | (low as u32)`.
unfoldable pub first_cluster : FatDir → ℕ
first_cluster entry = bit_or (entry.first_cluster_high * 2 ^ 16) entry.first_cluster_low
