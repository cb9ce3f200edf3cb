-- ===== src/Disk/Laws.antt =====
-- What the operations of the disk do to the files of one directory.
pub use prismproxy.Disk.Paths.{file}
use prismproxy.Disk.Paths.{file-insert, file-erase}
use prismproxy.Prelude.{
  String, ◌≡◌, refl, ◌∙◌, false, Option, none, some, lookup, erase, str_eq, eq_refl, inl, inr, ok,
  err, Option-cases,
}
use prismproxy.State.{join}
use prismproxy.Disk.{
  Fate, fine, failed, Disk, first_fate, later_fates, write, rename, remove_file, write_fated,
  rename_fated, remove_fated, move, drop_file, create_dir_all, create_fated,
}

module _ (dir : String) where
  -- Another file than the one that is written, by a write that succeeds or fails.
  pub file-write_other :
      (m n text : String) (d : Disk)
      → str_eq m n ≡ false
      → file dir n (write (join dir m) text d).1 ≡ file dir n d
  unfolding write
  file-write_other m n text d other = other_case (first_fate d.fates)
    where
      other_case :
          (f : Fate)
          → file dir n
              (write_fated (join dir m) text f (record d { fates = later_fates d.fates })).1
            ≡ file dir n d
      other_case fine = file-insert dir m n text d.files ∙ rw other refl
      other_case (failed e none) = refl
      other_case (failed e (some left)) = file-insert dir m n left d.files ∙ rw other refl

  -- The outcome of a write: done, or an error.
  pub file-write :
      (m text : String) (d : Disk)
      → (write (join dir m) text d).0 ≡ ok tt
      → file dir m (write (join dir m) text d).1 ≡ some text
  unfolding write
  file-write m text d = case (first_fate d.fates)
    where
      case :
          (f : Fate)
          → (write_fated (join dir m) text f (record d { fates = later_fates d.fates })).0 ≡ ok tt
          → file dir m
              (write_fated (join dir m) text f (record d { fates = later_fates d.fates })).1
            ≡ some text
      case fine done = file-insert dir m m text d.files ∙ rw (eq_refl m) refl
      case (failed e none) done = cc
      case (failed e (some left)) done = cc

  -- What a rename does to a file: nothing, if it fails, or if the file is another.
  pub file-rename_other :
      (from to n : String) (d : Disk)
      → str_eq n from ≡ false
      → str_eq to n ≡ false
      → file dir n (rename (join dir from) (join dir to) d).1 ≡ file dir n d
  unfolding rename
  file-rename_other from to n d not_from not_to = case (first_fate d.fates)
    where
      moved :
          (o : Option String)
          → file dir n
              (move (join dir from) (join dir to) o (record d { fates = later_fates d.fates })).1
            ≡ file dir n d
      moved none = refl
      moved (some text) =
          file-insert dir to n text (erase (join dir from) d.files)
          ∙ rw not_to (file-erase dir from n d.files ∙ rw not_from refl)

      case :
          (f : Fate)
          → file dir n
              (rename_fated
                (join dir from)
                (join dir to)
                f
                (record d { fates = later_fates d.fates })).1
            ≡ file dir n d
      case fine = moved (lookup (join dir from) d.files)
      case (failed e left) = refl

  pub file-rename_to :
      (from to text : String) (d : Disk)
      → file dir from d ≡ some text
      → (rename (join dir from) (join dir to) d).0 ≡ ok tt
      → file dir to (rename (join dir from) (join dir to) d).1 ≡ some text
  unfolding rename
  file-rename_to from to text d there = case (first_fate d.fates)
    where
      case :
          (f : Fate)
          → (rename_fated
              (join dir from)
              (join dir to)
              f
              (record d { fates = later_fates d.fates })).0
            ≡ ok tt
          → file dir to
              (rename_fated
                (join dir from)
                (join dir to)
                f
                (record d { fates = later_fates d.fates })).1
            ≡ some text
      case fine =
          rw there λ done.
            file-insert dir to to text (erase (join dir from) d.files) ∙ rw (eq_refl to) refl
      case (failed e left) = λ done. cc

  pub file-rename_failed :
      (from to n e : String) (d : Disk)
      → (rename (join dir from) (join dir to) d).0 ≡ err e
      → file dir n (rename (join dir from) (join dir to) d).1 ≡ file dir n d
  unfolding rename
  file-rename_failed from to n e d = case (first_fate d.fates)
    where
      moved :
          (o : Option String)
          → (move (join dir from) (join dir to) o (record d { fates = later_fates d.fates })).0
            ≡ err e
          → file dir n
              (move (join dir from) (join dir to) o (record d { fates = later_fates d.fates })).1
            ≡ file dir n d
      moved none failed_so = refl
      moved (some text) failed_so = cc

      case :
          (f : Fate)
          → (rename_fated
              (join dir from)
              (join dir to)
              f
              (record d { fates = later_fates d.fates })).0
            ≡ err e
          → file dir n
              (rename_fated
                (join dir from)
                (join dir to)
                f
                (record d { fates = later_fates d.fates })).1
            ≡ file dir n d
      case fine failed_so = moved (lookup (join dir from) d.files) failed_so
      case (failed e' left) failed_so = refl

  pub file-remove_other :
      (m n : String) (d : Disk)
      → str_eq n m ≡ false
      → file dir n (remove_file (join dir m) d).1 ≡ file dir n d
  unfolding remove_file
  file-remove_other m n d other = case (first_fate d.fates)
    where
      dropped :
          (o : Option String)
          → file dir n (drop_file (join dir m) o (record d { fates = later_fates d.fates })).1
            ≡ file dir n d
      dropped none = refl
      dropped (some text) = file-erase dir m n d.files ∙ rw other refl

      case :
          (f : Fate)
          → file dir n (remove_fated (join dir m) f (record d { fates = later_fates d.fates })).1
            ≡ file dir n d
      case fine = dropped (lookup (join dir m) d.files)
      case (failed e left) = refl

  -- A removal that its fate does not stop leaves no such file, whether there was one or not.
  pub file-remove :
      (m : String) (d : Disk)
      → first_fate d.fates ≡ fine
      → file dir m (remove_file (join dir m) d).1 ≡ none
  unfolding remove_file
  file-remove m d fair = rw fair (elim (Option-cases (lookup (join dir m) d.files)) [
    | inl gone ↦ rw gone gone
    | inr (text, there) ↦ rw there (file-erase dir m m d.files ∙ rw (eq_refl m) refl)
  ])

  pub file-create_dir_all : (n : String) (d : Disk) → file dir n (create_dir_all d).1 ≡ file dir n d
  unfolding create_dir_all
  file-create_dir_all n d = case (first_fate d.fates)
    where
      case :
          (f : Fate)
          → file dir n (create_fated f (record d { fates = later_fates d.fates })).1 ≡ file dir n d
      case fine = refl
      case (failed e left) = refl

  -- A rename that is done leaves no file under the old name.
  pub file-rename_from :
      (from to : String) (d : Disk)
      → str_eq to from ≡ false
      → (rename (join dir from) (join dir to) d).0 ≡ ok tt
      → file dir from (rename (join dir from) (join dir to) d).1 ≡ none
  unfolding rename
  file-rename_from from to d apart = case (first_fate d.fates)
    where
      moved :
          (o : Option String)
          → (move (join dir from) (join dir to) o (record d { fates = later_fates d.fates })).0
            ≡ ok tt
          → file dir from
              (move (join dir from) (join dir to) o (record d { fates = later_fates d.fates })).1
            ≡ none
      moved none done = cc
      moved (some text) done =
          file-insert dir to from text (erase (join dir from) d.files)
          ∙ rw apart (file-erase dir from from d.files ∙ rw (eq_refl from) refl)

      case :
          (f : Fate)
          → (rename_fated
              (join dir from)
              (join dir to)
              f
              (record d { fates = later_fates d.fates })).0
            ≡ ok tt
          → file dir from
              (rename_fated
                (join dir from)
                (join dir to)
                f
                (record d { fates = later_fates d.fates })).1
            ≡ none
      case fine done = moved (lookup (join dir from) d.files) done
      case (failed e left) done = cc
