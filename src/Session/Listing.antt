-- ===== src/Session/Listing.antt =====
-- code_executor_api/sessions.py, `Session.list_directory`.
use code_executor_api.Prelude.{ℕ, Text, strip, false, List, [], ◌∷◌, Result, ok, err, if◌then◌else◌}
use code_executor_api.Prelude.Order.{text_leb}
use code_executor_api.Path.{is_slash, is_empty}
use code_executor_api.FileSystem.{
  eloop, enotdir, Exception, os_error, Node, regular, directory, symlink, special, Exec, pure,
  raise, ◌>>=◌, catch, finally, close,
}
use code_executor_api.FileSystem.Calls.{open_root, open_directory_at, stat_at, listdir}
use code_executor_api.Session.{normalised, with_parent}

-- The values of the `type` field.
pub data EntryType : Type 0 where
  file_type directory_type symlink_type other_type : EntryType

-- `_entry_type`
unfoldable pub entry_type : Node → EntryType
entry_type (regular content) = file_type
entry_type (directory es) = directory_type
entry_type (symlink t) = symlink_type
entry_type (special s) = other_type

-- `st_size` and `st_mtime` of an entry, which the kernel gives by its name and what it is.
abbrev pub Attributes : Type 0
Attributes = Text → Node → ℕ × ℕ

-- An entry of the listing.
pub record Entry : Type 0 where
  pub name : Text
  pub kind : EntryType
  pub size : ℕ
  pub modified_at : ℕ

unfoldable pub entry_of : Attributes → Text → Node → Entry
entry_of attributes name n =
    let (size, modified_at) = attributes name n in
    record { name = name; kind = entry_type n; size = size; modified_at = modified_at }

abbrev pub as_not_a_directory : Exception → Exec ℕ
as_not_a_directory (os_error eloop) = raise (os_error enotdir)
as_not_a_directory e = raise e

abbrev pub skip_failed : Attributes → Text → List Entry → Result Exception Node → Exec (List Entry)
skip_failed attributes name found (ok n) = pure (entry_of attributes name n ∷ found)
skip_failed attributes name found (err (os_error e)) = pure found
skip_failed attributes name found (err e) = raise e

-- The loop over the names: an entry that cannot be examined is left out.
unfoldable pub list_names : Attributes → ℕ → List (Text × ℕ) → Exec (List Entry)
list_names attributes fd [] = pure []
list_names attributes fd ((name, i) ∷ names) =
    (λ w. let (r, w') = stat_at fd name w in (ok r, w')) >>= λ r.
    list_names attributes fd names >>= λ found. skip_failed attributes name found r

unfoldable pub place_entry : Entry → List Entry → List Entry
place_entry e [] = e ∷ []
place_entry e (f ∷ entries) =
    if text_leb e.name f.name then e ∷ f ∷ entries else f ∷ place_entry e entries

-- `entries.sort(key=lambda entry: entry["name"])`
unfoldable pub sort_entries : List Entry → List Entry
sort_entries [] = []
sort_entries (e ∷ entries) = place_entry e (sort_entries entries)

unfoldable pub list_open : Attributes → Text → ℕ → Exec (Text × List Entry)
list_open attributes path fd =
    finally (listdir fd >>= list_names attributes fd) close >>= λ entries.
    pure (path, sort_entries entries)

-- `list_directory`
unfoldable pub list_directory : Attributes → ℕ → Text → Exec (Text × List Entry)
list_directory attributes root sub_path =
    if is_empty (strip is_slash sub_path)
    then (open_root root >>= list_open attributes [])
    else (normalised sub_path >>= λ path.
        with_parent root path false
          (λ parent_fd filename. catch (open_directory_at parent_fd filename) as_not_a_directory)
        >>= list_open attributes path)
