-- ===== src/Storage/Files.antt =====
-- The file system below internal/infra/storage/fsblob/store.go, as the list of its files. A
-- directory is there as far as there are files in it.
use regixtry.Base.{
  ℕ, Bool, true, false, not, ◌||◌, List, [], ◌∷◌, Option, none, some, Text, codes, text_eq, text_lt,
  if◌then◌else◌, any, find?, keep, sort_by,
}
use regixtry.Strings.{split}

-- An absolute path that filepath.Clean leaves as it is: its components, the innermost first.
abbrev pub FilePath : Type 0
FilePath = List Text

abbrev pub parent : FilePath → FilePath
parent [] = []
parent (_ ∷ p) = p

abbrev pub component : Text → FilePath → FilePath
component c p =
    if text_eq c [] || text_eq c (codes ".")
    then p
    else if text_eq c (codes "..")
    then parent p
    else c ∷ p

abbrev pub components : List Text → FilePath → FilePath
components [] p = p
components (c ∷ cs) p = components cs (component c p)

-- filepath.Join of a clean path and one more element
unfoldable pub join_path : FilePath → Text → FilePath
unfolding split text_eq
join_path p elem = components (split b'/' elem) p

unfoldable pub path_eq : FilePath → FilePath → Bool
unfolding text_eq
path_eq [] [] = true
path_eq (a ∷ p) (b ∷ q) = if text_eq a b then path_eq p q else false
path_eq _ _ = false

-- The directory itself, and what is below it.
unfoldable pub is_within : FilePath → FilePath → Bool
unfolding path_eq
is_within dir [] = path_eq [] dir
is_within dir (c ∷ p) = let below = is_within dir p in path_eq (c ∷ p) dir || below

pub record File : Type 0 where
  pub path : FilePath
  pub bytes : List ℕ
  pub modified : ℕ

unfoldable pub find_file : FilePath → List File → Option File
unfolding path_eq
find_file p fs = find? (λ f. path_eq f.path p) fs

-- os.Remove
unfoldable pub remove_file : FilePath → List File → List File
unfolding path_eq
remove_file p fs = keep (λ f. not (path_eq f.path p)) fs

-- os.RemoveAll
unfoldable pub remove_tree : FilePath → List File → List File
unfolding is_within
remove_tree dir fs = keep (λ f. not (is_within dir f.path)) fs

-- The file is there with these contents, whatever was there before.
unfoldable pub put_file : File → List File → List File
unfolding remove_file
put_file f fs = f ∷ remove_file f.path fs

-- An entry of a directory: its name, and its file where it is no directory.
pub record Entry : Type 0 where
  pub name : Text
  pub file : Option File

abbrev pub entry_at : FilePath → FilePath → File → Option Entry
entry_at dir [] f = none
entry_at dir (c ∷ p) f =
    let deeper = entry_at dir p f in
    if path_eq p dir
    then some (record { name = c; file = if path_eq f.path (c ∷ p) then some f else none })
    else deeper

abbrev pub add_entry : Option Entry → List Entry → List Entry
add_entry none es = es
add_entry (some e) es = if any (λ x. text_eq x.name e.name) es then es else e ∷ es

abbrev pub entries : FilePath → List File → List Entry
entries dir [] = []
entries dir (f ∷ fs) = add_entry (entry_at dir f.path f) (entries dir fs)

-- os.ReadDir: by name
unfoldable pub read_dir : FilePath → List File → List Entry
unfolding text_eq text_lt path_eq
read_dir dir fs = sort_by (λ a b. text_lt a.name b.name) (entries dir fs)
