-- ===== src/Session/Lists.antt =====
-- What `Session.list_directory` gives, where no call fails.
use code_executor_api.Prelude.{
  ℕ, suc, Text, text_eq, strip, split, ◌≡◌, refl, sym, subst, true, false, not, ◌&&◌, inl, inr, ◌⊎◌,
  some, List, [], All, ok,
}
use code_executor_api.Prelude.Order.{has, IsSorted, sorted-IsSorted}
use code_executor_api.Path.{slash, dot, dotdot, is_slash, is_empty, normalize_sub_path}
use code_executor_api.FileSystem.{directory, Fs, without, syscall}
use code_executor_api.FileSystem.Calls.{listdir}
use code_executor_api.FileSystem.Resolve.{IsDirectory, Enters, Resolves, child-IsDirectory}
use code_executor_api.FileSystem.Calm.{calm, open_root-calm, open_directory_at-calm}
use code_executor_api.Session.{init, last, with_parent}
use code_executor_api.Session.Walks.{descend-calm, less_one}
use code_executor_api.Session.RoundTrip.{resolved-IsDirectory}
use code_executor_api.Session.Listing.{Attributes, Entry, sort_entries, list_open, list_directory}
use code_executor_api.Session.Entries.{
  Describes, All-Described, describe, is_some, gathered, list_names-calm, names_of, names-sort,
  gathered-IsDescribed, sort-IsDescribed, has-listing,
}

-- The directory that a listing is of: the session's own, or one that a path leads to.
abbrev pub Leads : Fs → ℕ → Text → Text → ℕ → Type 0
Leads fs root sub_path path d =
    ((is_empty (strip is_slash sub_path) ≡ true) × ((path ≡ []) × (root ≡ d)))
    ⊎ ((is_empty (strip is_slash sub_path) ≡ false)
        × ((normalize_sub_path sub_path ≡ ok path)
            × ((parent : ℕ) × Resolves fs root (init (split slash path)) parent
                × Enters fs parent (last (split slash path)) d)))

list_open-calm :
    (attributes : Attributes) (fs : Fs) (n d : ℕ) (path : Text) (es : List (Text × ℕ))
    → fs.node d ≡ some (directory es)
    → (list_open attributes path d (calm fs (suc n))).0
      ≡ ok (path, sort_entries (gathered attributes fs d (without dot (without dotdot es))))
unfolding list_open listdir syscall
list_open-calm attributes fs n d path es h =
    rw (h, list_names-calm attributes fs (suc n) d (without dot (without dotdot es))) refl

list_directory-calm :
    (attributes : Attributes) (fs : Fs) (n root d : ℕ) (sub_path path : Text) (es : List (Text × ℕ))
    → fs.node d ≡ some (directory es)
    → Leads fs root sub_path path d
    → (list_directory attributes root sub_path (calm fs n)).0
      ≡ ok (path, sort_entries (gathered attributes fs d (without dot (without dotdot es))))
unfolding list_directory with_parent
list_directory-calm attributes fs n root d sub_path path es h (inl (e, (p, same))) =
    let here : fs.node root ≡ some (directory es) =
      subst (λ i. fs.node i ≡ some (directory es)) (sym same) h in
    rw (e, open_root-calm fs n root (es, here), same, p) (list_open-calm attributes fs n d [] es h)
list_directory-calm attributes fs n root d sub_path path es h (inr (e, (q, (parent, r, enters)))) =
    let top =
      resolved-IsDirectory fs root parent (init (split slash path)) r
        (child-IsDirectory fs parent d (last (split slash path)) enters.0) in
    rw
      (
        e,
        q,
        open_root-calm fs n root top,
        descend-calm fs n root parent (init (split slash path)) false r,
        open_directory_at-calm fs (suc n) parent d (last (split slash path)) enters,
        less_one (suc n),
      )
      (list_open-calm attributes fs n d path es h)

-- Where no call fails, `list_directory` of a directory of the session, the session's own or one that an
-- accepted path leads to without a link, returns a listing that is sorted by name, that has a name if
-- and only if it stands for something in the directory and is neither `.` nor `..`, and in which each
-- name has the type of what it stands for (a file, a directory, a symlink, or another thing), and its
-- size and time.
pub list_directory-lists :
    (attributes : Attributes) (fs : Fs) (n root d : ℕ) (sub_path path : Text)
    → IsDirectory fs d
    → Leads fs root sub_path path d
    → (entries : List Entry) × ((list_directory attributes root sub_path (calm fs n)).0
        ≡ ok (path, entries))
      × IsSorted (names_of entries)
      × ((p : Text)
          → has p (names_of entries) ≡ (
              not (text_eq dot p)
              && (not (text_eq dotdot p) && is_some (describe attributes fs d p))))
      × All (Describes attributes fs d) entries
list_directory-lists attributes fs n root d sub_path path (es, h) l =
    let names : List (Text × ℕ) = without dot (without dotdot es) in
    (
      sort_entries (gathered attributes fs d names),
      list_directory-calm attributes fs n root d sub_path path es h l,
      subst IsSorted (sym (names-sort (gathered attributes fs d names)))
          (sorted-IsSorted (names_of (gathered attributes fs d names))),
      λ p. has-listing attributes fs d p es h,
      All-Described attributes fs d (sort_entries (gathered attributes fs d names)) (
          sort-IsDescribed attributes fs d (gathered attributes fs d names)
            (gathered-IsDescribed attributes fs d names)),
    )
