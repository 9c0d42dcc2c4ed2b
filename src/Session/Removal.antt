-- ===== src/Session/Removal.antt =====
-- code_executor_api/sessions.py, `_remove_tree`: executed code may have taken the permissions of a
-- directory away, and they are restored from the top down before the tree is removed.
use code_executor_api.Prelude.{
  Text, ◌≡◌, refl, ◌∙◌, Bool, true, false, ◌&&◌, ◌||◌, if◌then◌else◌, arith, Bool-cases, inl, inr,
}

-- What its mode lets the service do in a directory: list it, create and unlink, and look names up.
pub record Mode : Type 0 where
  pub readable : Bool
  pub writable : Bool
  pub searchable : Bool

-- 0o700
abbrev pub full : Mode
full = record { readable = true; writable = true; searchable = true }

-- The entries of a directory. A subdirectory has its mode, and whether a `chmod` of it succeeds if it can
-- be looked up; a link is never followed.
pub data Entries : Type 0 where
  end : Entries
  leaf : Text → Entries → Entries
  link : Text → Entries → Entries
  subdirectory : Text → Mode → Bool → Entries → Entries → Entries

-- `os.chmod` with its errors suppressed
abbrev pub chmod : Bool → Mode → Mode
chmod true mode = full
chmod false mode = mode

-- A round of the loop over `os.fwalk`, and those below, in a directory that could be listed: the modes of
-- its subdirectories are changed before they are entered, for which it has to be searchable, and what
-- cannot be listed is passed over.
unfoldable pub unlock : Bool → Entries → Entries
unlock searchable end = end
unlock searchable (leaf name rest) = leaf name (unlock searchable rest)
unlock searchable (link name rest) = link name (unlock searchable rest)
unlock searchable (subdirectory name mode may inner rest) =
    let changed = chmod (searchable && may) mode in
    let below = unlock changed.searchable inner in
    subdirectory name changed may (if searchable && changed.readable then below else inner)
      (unlock searchable rest)

-- Whether `shutil.rmtree` gets through, and does not raise `PermissionError`, in a directory of this
-- mode that has been opened: each entry is looked up and unlinked.
unfoldable pub rmtree : Mode → Entries → Bool
rmtree mode end = true
rmtree mode (leaf name rest) = (mode.writable && mode.searchable) && rmtree mode rest
rmtree mode (link name rest) = (mode.writable && mode.searchable) && rmtree mode rest
rmtree mode (subdirectory name below may inner rest) =
    (mode.writable && mode.searchable)
    && ((below.readable && rmtree below inner) && rmtree mode rest)

abbrev in_opened : Mode → Entries → Bool
in_opened mode entries =
    let unlocked = unlock mode.searchable entries in
    mode.readable && rmtree mode (if mode.readable then unlocked else entries)

-- `_remove_tree`, of a directory with this mode and these entries
unfoldable pub remove_tree : Mode → Bool → Entries → Bool
unfolding unlock rmtree
remove_tree mode may entries = in_opened (chmod may mode) entries

abbrev pub is_vacant : Entries → Bool
is_vacant end = true
is_vacant _ = false

-- A directory whose mode can be changed, or that can be listed and has nothing in it, or that can be
-- listed, written and searched.
abbrev pub is_open : Mode → Bool → Entries → Bool
is_open mode may inner =
    may || (mode.readable && (is_vacant inner || (mode.writable && mode.searchable)))

-- Every directory of the tree is one of those.
abbrev pub is_ours : Entries → Bool
is_ours end = true
is_ours (leaf name rest) = is_ours rest
is_ours (link name rest) = is_ours rest
is_ours (subdirectory name mode may inner rest) =
    is_open mode may inner && (is_ours inner && is_ours rest)

-- A directory in which something can be removed, or in which there is nothing.
abbrev lets : Bool → Bool → Entries → Bool
lets writable searchable entries = is_vacant entries || (writable && searchable)

abbrev mode_of : Bool → Bool → Bool → Mode
mode_of r w s = record { readable = r; writable = w; searchable = s }

-- What is removed of a directory that could be listed.
rmtree-unlock :
    (r w s : Bool) (entries : Entries)
    → rmtree (mode_of r w s) (unlock s entries) ≡ (lets w s entries && is_ours entries)
unfolding rmtree unlock
rmtree-unlock r w s end = refl
rmtree-unlock r false s (leaf name rest) = refl
rmtree-unlock r true false (leaf name rest) = refl
rmtree-unlock r true true (leaf name rest) = rmtree-unlock r true true rest ∙ ground arith
rmtree-unlock r false s (link name rest) = refl
rmtree-unlock r true false (link name rest) = refl
rmtree-unlock r true true (link name rest) = rmtree-unlock r true true rest ∙ ground arith
rmtree-unlock r false s (subdirectory name below may inner rest) = refl
rmtree-unlock r true false (subdirectory name below may inner rest) = refl
rmtree-unlock r true true (subdirectory name below true inner rest) =
    rw (rmtree-unlock true true true inner, rmtree-unlock r true true rest) (ground arith)
rmtree-unlock r true true (subdirectory name below false inner rest) =
    elim (Bool-cases below.readable) [
      | inr e ↦ rw e refl
      | inl e ↦
          rw
            (
              e,
              rmtree-unlock true below.writable below.searchable inner,
              rmtree-unlock r true true rest,
            )
            (ground arith)
    ]

in_opened_lem :
    (mode : Mode) (entries : Entries)
    → in_opened mode entries
      ≡ ((mode.readable && lets mode.writable mode.searchable entries) && is_ours entries)
in_opened_lem mode entries = elim (Bool-cases mode.readable) [
  | inr e ↦ rw e refl
  | inl e ↦ rw e (rmtree-unlock true mode.writable mode.searchable entries)
]

-- A session's tree is removed, whatever modes executed code has left in it, exactly if the mode of each
-- of its directories can be changed or lets the service list the directory and, unless it is empty, write
-- and search it.
pub remove_tree-is_ours :
    (mode : Mode) (may : Bool) (entries : Entries)
    → remove_tree mode may entries ≡ (is_open mode may entries && is_ours entries)
unfolding remove_tree
remove_tree-is_ours mode true entries = in_opened_lem full entries ∙ ground arith
remove_tree-is_ours mode false entries = in_opened_lem mode entries ∙ ground arith
