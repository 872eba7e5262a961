-- ===== src/Tests/Keeping.antt =====
-- A file of the example volume, made, written and printed.
use fat32_reimplementation.Base.{◌≡◌, refl, [], none, arith, done, ◌>>=◌, ok}
use fat32_reimplementation.Base.Windows.{window, splice}
use fat32_reimplementation.Base.Text.{split, from_utf8, ascii_upper}
use fat32_reimplementation.FileSystem.Names.{short_name_to_string, format_to_8_3}
use fat32_reimplementation.FileSystem.Listing.Contents.{cluster_chunks}
use fat32_reimplementation.FileSystem.Files.{rsplit_slash, named_slot}
use fat32_reimplementation.FileSystem.Files.Keeping.{IsNew}
use fat32_reimplementation.Shell.{content, touch, write, cat}
use fat32_reimplementation.Shell.Entering.{session}
use fat32_reimplementation.Shell.Keeping.{touch-cat}
use fat32_reimplementation.Tests.Fixture.{volume, text}
use fat32_reimplementation.Tests.Volume.{all_bytes-IsByte, volume-IsVolume, volume-InData}
use fat32_reimplementation.Tests.Witnesses.{upper}
use fat32_reimplementation.Tests.Directories.{
  new_name, new_short, new_short-IsShortName, root-HasRoom, new_formatted,
}
use fat32_reimplementation.Tests.Entering.{new_short-IsName, root_files, root_listed, not_listed}

new_again : format_to_8_3 upper (short_name_to_string new_short) ≡ ok new_short
unfolding format_to_8_3 split short_name_to_string from_utf8 window splice ascii_upper
new_again = refl

new_slash : rsplit_slash (short_name_to_string new_short) ≡ none
unfolding rsplit_slash short_name_to_string from_utf8 window
new_slash = refl

new_slot : named_slot new_short (cluster_chunks volume 2) 0 ≡ none
unfolding named_slot window
new_slot = refl

root-IsNew : IsNew upper volume 1 4 new_short new_name root_files
root-IsNew = record {
  short = new_short-IsShortName;
  room = root-HasRoom;
  inside = volume-InData 4 (omega arith) (omega arith);
  apart = omega arith;
  formatted = new_formatted;
  again = new_again;
  one_name = new_short-IsName;
  no_slash = new_slash;
  listed = root_listed;
  not_listed = not_listed;
  no_slot = new_slot;
}

touch-cat_example :
    (touch upper (session volume 2) [] new_name >>= λ (_, session1).
    write upper session1 (short_name_to_string new_short) text >>= λ (_, session2).
    cat 1 session2 (short_name_to_string new_short))
    ≡ done (ok (content text))
unfolding from_utf8
touch-cat_example =
    touch-cat upper volume-IsVolume 1 4 new_short new_name root_files root-IsNew 2 text text
      (all_bytes-IsByte text refl) (omega arith) refl
