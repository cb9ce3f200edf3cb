-- ===== src/Disk.antt =====
-- `std::fs` as the program uses it: the files by path, and what goes wrong with the coming
-- operations: a write, a rename, a removal or the creation of a directory. To read a file that is
-- there, and to ask whether one is, does not go wrong. No other process touches the files meanwhile.
pub mod Paths
pub mod Laws
pub mod Fates
use prismproxy.Prelude.{
  String, Bool, true, false, Option, none, some, List, [], ◌∷◌, lookup, insert, erase, Result, ok,
  err,
}
use prismproxy.Config.{is_some}
use prismproxy.State.{Files}

-- The fate of one operation. What a failed `write` leaves in the file, if it is not what was there
-- before, is the second argument.
pub data Fate : Type 0 where
  fine : Fate
  failed : (message : String) → Option String → Fate

pub record Disk : Type 0 where
  pub files : List (String × String)
  -- Past its end, all is fine.
  pub fates : List Fate

abbrev pub first_fate : List Fate → Fate
first_fate [] = fine
first_fate (f ∷ fs) = f

abbrev pub later_fates : List Fate → List Fate
later_fates [] = []
later_fates (f ∷ fs) = fs

abbrev pub Operation : Type 0
Operation = Disk → Result (Unit {0}) String × Disk

abbrev pub missing : String
missing = "No such file or directory (os error 2)"

-- An operation that meets its fate, on the disk without it.
abbrev pub with_fate : (Fate → Operation) → Operation
with_fate operation d = operation (first_fate d.fates) (record d { fates = later_fates d.fates })

abbrev put : String → String → Disk → Disk
put path text d = record d { files = insert path text d.files }

abbrev write_fated : String → String → Fate → Operation
write_fated path text fine d = (ok tt, put path text d)
write_fated path text (failed e none) d = (err e, d)
write_fated path text (failed e (some left)) d = (err e, put path left d)

-- `std::fs::write`
unfoldable pub write : String → String → Operation
write path text = with_fate (write_fated path text)

abbrev move : String → String → Option String → Operation
move from to none d = (err missing, d)
move from to (some text) d = (ok tt, record d { files = insert to text (erase from d.files) })

abbrev rename_fated : String → String → Fate → Operation
rename_fated from to fine d = move from to (lookup from d.files) d
rename_fated from to (failed e left) d = (err e, d)

-- `std::fs::rename`
unfoldable pub rename : String → String → Operation
rename from to = with_fate (rename_fated from to)

abbrev drop_file : String → Option String → Operation
drop_file path none d = (err missing, d)
drop_file path (some text) d = (ok tt, record d { files = erase path d.files })

abbrev remove_fated : String → Fate → Operation
remove_fated path fine d = drop_file path (lookup path d.files) d
remove_fated path (failed e left) d = (err e, d)

-- `std::fs::remove_file`
unfoldable pub remove_file : String → Operation
remove_file path = with_fate (remove_fated path)

abbrev create_fated : Fate → Operation
create_fated fine d = (ok tt, d)
create_fated (failed e left) d = (err e, d)

-- `std::fs::create_dir_all`; the files do not tell the directories.
unfoldable pub create_dir_all : Operation
create_dir_all = with_fate create_fated

-- `Path::exists`
unfoldable pub exists : String → Disk → Bool
exists path d = is_some (lookup path d.files)

abbrev text_or_missing : Option String → Result String String
text_or_missing none = err missing
text_or_missing (some text) = ok text

-- `std::fs::read_to_string`
unfoldable pub read_to_string : String → Disk → Result String String
read_to_string path d = text_or_missing (lookup path d.files)

-- What `build_state` reads.
abbrev pub files_of : Disk → Files
files_of d = record {
  exists = λ path. exists path d;
  read_to_string = λ path. read_to_string path d;
}
