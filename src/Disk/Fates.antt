-- ===== src/Disk/Fates.antt =====
-- Each operation of the disk meets one fate.
use prismproxy.Prelude.{String, ◌≡◌, refl, ap, ◌∙◌, Option, none, some, [], lookup, ok}
use prismproxy.Disk.{
  Fate, fine, failed, Disk, Operation, first_fate, later_fates, write, write_fated, rename,
  rename_fated, move, remove_file, remove_fated, drop_file, create_dir_all, create_fated,
}

-- Nothing goes wrong any more.
abbrev pub IsFair : Disk → Type 0
IsFair d = d.fates ≡ []

module _ (d : Disk) where
  abbrev rest : Disk
  rest = record d { fates = later_fates d.fates }

  abbrev Meets : Operation → Type 0
  Meets operation = (operation d).1.fates ≡ later_fates d.fates

  fates-write : (path text : String) → Meets (write path text)
  unfolding write
  fates-write path text = case (first_fate d.fates)
    where
      case : (f : Fate) → (write_fated path text f rest).1.fates ≡ later_fates d.fates
      case fine = refl
      case (failed e none) = refl
      case (failed e (some left)) = refl

  fates-rename : (from to : String) → Meets (rename from to)
  unfolding rename
  fates-rename from to = case (first_fate d.fates)
    where
      moved : (o : Option String) → (move from to o rest).1.fates ≡ later_fates d.fates
      moved none = refl
      moved (some text) = refl

      case : (f : Fate) → (rename_fated from to f rest).1.fates ≡ later_fates d.fates
      case fine = moved (lookup from d.files)
      case (failed e left) = refl

  fates-remove_file : (path : String) → Meets (remove_file path)
  unfolding remove_file
  fates-remove_file path = case (first_fate d.fates)
    where
      dropped : (o : Option String) → (drop_file path o rest).1.fates ≡ later_fates d.fates
      dropped none = refl
      dropped (some text) = refl

      case : (f : Fate) → (remove_fated path f rest).1.fates ≡ later_fates d.fates
      case fine = dropped (lookup path d.files)
      case (failed e left) = refl

  fates-create_dir_all : Meets create_dir_all
  unfolding create_dir_all
  fates-create_dir_all = case (first_fate d.fates)
    where
      case : (f : Fate) → (create_fated f rest).1.fates ≡ later_fates d.fates
      case fine = refl
      case (failed e left) = refl

module _ (d : Disk) (fair : IsFair d) where
  pub write-IsFair : (path text : String) → IsFair (write path text d).1
  write-IsFair path text = fates-write d path text ∙ ap later_fates fair

  pub rename-IsFair : (from to : String) → IsFair (rename from to d).1
  rename-IsFair from to = fates-rename d from to ∙ ap later_fates fair

  pub remove_file-IsFair : (path : String) → IsFair (remove_file path d).1
  remove_file-IsFair path = fates-remove_file d path ∙ ap later_fates fair

  pub first_fine : first_fate d.fates ≡ fine
  first_fine = ap first_fate fair

  pub create_dir_all-IsFair : IsFair (create_dir_all d).1
  create_dir_all-IsFair = fates-create_dir_all d ∙ ap later_fates fair

  pub write-ok : (path text : String) → (write path text d).0 ≡ ok tt
  unfolding write
  write-ok path text = ap (λ f. (write_fated path text f (rest d)).0) first_fine

  pub create_dir_all-ok : (create_dir_all d).0 ≡ ok tt
  unfolding create_dir_all
  create_dir_all-ok = ap (λ f. (create_fated f (rest d)).0) first_fine

  pub rename-ok :
      (from to text : String) → lookup from d.files ≡ some text → (rename from to d).0 ≡ ok tt
  unfolding rename
  rename-ok from to text there =
      ap (λ f. (rename_fated from to f (rest d)).0) first_fine
      ∙ ap (λ o. (move from to o (rest d)).0) there
