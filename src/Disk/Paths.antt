-- ===== src/Disk/Paths.antt =====
-- The files of one directory, by name.
use Prim.Native.String
use text.Mathlib.TextLemmas.{append_cancel_left, append_cancel_right}
use prismproxy.Prelude.{
  String, ◌≡◌, refl, sym, ap, ◌∙◌, Option, none, some, List, lookup, insert, erase, lookup-insert,
  lookup-erase, str_eq, eq_iff, ends_with, Bool-cases, inl, inr, if◌then◌else◌,
}
use prismproxy.State.{join}
use prismproxy.Disk.{Disk}

cancel :
    (s m n : String) → String.◌++◌ s (String.◌++◌ m "") ≡ String.◌++◌ s (String.◌++◌ n "") → m ≡ n
cancel s m n h = append_cancel_right m n "" (append_cancel_left s _ _ h)

join-injective : (dir m n : String) → join dir m ≡ join dir n → m ≡ n
unfolding join
join-injective dir m n = elim (Bool-cases (str_eq dir "")) [
  | inl empty ↦ rw empty (λ h. h)
  | inr named ↦ rw named (elim (Bool-cases (ends_with dir "/")) [
    | inl slash ↦ rw slash (cancel dir m n)
    | inr plain ↦ rw plain λ h. cancel "/" m n (append_cancel_left dir _ _ h)
  ])
]

-- Two paths in the directory are equal exactly if the names are.
str_eq-join : (dir m n : String) → str_eq (join dir m) (join dir n) ≡ str_eq m n
str_eq-join dir m n = elim (Bool-cases (str_eq m n)) [
  | inl same ↦ rw same ((eq_iff _ _).1 (ap (join dir) ((eq_iff m n).0 same)))
  | inr other ↦ elim (Bool-cases (str_eq (join dir m) (join dir n))) [
    | inl met ↦
        absurd (let same = (eq_iff m n).1 (join-injective dir m n ((eq_iff _ _).0 met)) in cc)
    | inr apart ↦ apart ∙ sym other
  ]
]

-- The file of a name in the directory.
abbrev pub file : String → String → Disk → Option String
file dir name d = lookup (join dir name) d.files

module _ (dir : String) where
  pub file-insert :
      (m n text : String) (files : List (String × String))
      → lookup (join dir n) (insert (join dir m) text files)
        ≡ (if str_eq m n then some text else lookup (join dir n) files)
  file-insert m n text files =
      lookup-insert (join dir m) (join dir n) text files ∙ rw (str_eq-join dir m n) refl

  pub file-erase :
      (m n : String) (files : List (String × String))
      → lookup (join dir n) (erase (join dir m) files)
        ≡ (if str_eq n m then none else lookup (join dir n) files)
  file-erase m n files =
      lookup-erase (join dir m) (join dir n) files ∙ rw (str_eq-join dir n m) refl
