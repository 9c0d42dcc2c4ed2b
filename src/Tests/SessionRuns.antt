-- ===== src/Tests/SessionRuns.antt =====
-- The file operations over a small file system.
use code_executor_api.Prelude.{
  ℕ, inl, not, ◌&&◌, All, List, length, strip, ◌≡◌, refl, ap, arith, true, false, text_eq,
  text_eq_iff, split, Text, codes, Option, none, some, [], ◌∷◌, Result, ok, ok_inj, sym, subst, ◌∙◌,
  err, ◌==◌, if◌then◌else◌,
}
use code_executor_api.Prelude.Order.{has, IsSorted, text_leb}
use code_executor_api.Session.Listing.{
  Attributes, Entry, entry_of, entry_type, file_type, symlink_type, list_names, place_entry,
  sort_entries, list_open, list_directory,
}
use code_executor_api.Session.Refused.{DiffersAt, write_file-refused}
use code_executor_api.Session.Entries.{names_of, is_some, describe, Describes}
use code_executor_api.Session.Lists.{Leads, list_directory-lists}
use code_executor_api.Path.{slash, dot, dotdot, normalize_sub_path}
use code_executor_api.FileSystem.{
  child, entry, without, add_child, Fs, World, Exception, Bytes, Node, directory, regular, symlink,
  enospc, enoent, os_error, resource_limit, storage_limit, file_size_limit, entity_too_large,
  open_call,
}
use code_executor_api.FileSystem.Descriptors.{After}
use code_executor_api.FileSystem.Calls.{
  open_root, open_directory_at, open_file_at, create_file_at, mkdir_at, write_to, fstat, replace_at,
  unlink_at, listdir, stat_at,
}
use code_executor_api.FileSystem.Resolve.{IsFresh, IsNoDirectory}
use code_executor_api.FileSystem.Calm.{calm}
use code_executor_api.Session.RoundTrip.{write_file-read_file}
use code_executor_api.Session.Writes.{write_file-serves}
use code_executor_api.Session.Others.{AreApart, write_file-read_other}
use code_executor_api.Content.{
  file_payload, fdopen, make_payload, chunk, stream, read_loop, temporary_name, read_content,
  in_memory, write_file_to_temp, write_opened, write_file_content, write_content, prepare_reader,
  suppress_not_found,
}
use code_executor_api.Session.{
  read_file, stage_file, commit_staged_file, discard_staged_file, write_file, delete_file,
  with_parent, descend, open_next, last,
}
use code_executor_api.Session.Closed.{operations_close}

-- Inode 0 is the session's directory: a file, and a link out of it.
abbrev disk : ℕ → Option Node
disk i =
    if i == 0
    then some (directory ((dot, 0) ∷ (dotdot, 9) ∷ (codes "f", 1) ∷ (codes "out", 2) ∷ []))
    else if i == 1
    then some (regular (7 ∷ []))
    else if i == 2
    then some (symlink (codes "/etc"))
    else none

abbrev pub world : World
world = record { fs = record { node = disk; next = 10 }; faults = []; open_fds = 3 }

-- The seventh call of the kernel, the write of the content, fails.
abbrev full_disk : World
full_disk = record world { faults = none ∷ none ∷ none ∷ none ∷ none ∷ none ∷ some enospc ∷ [] }

-- A run opens what the operations call.
run_write : World → Result Exception (Unit {0}) × World
unfolding write_file stage_file commit_staged_file discard_staged_file with_parent descend open_next
    write_file_to_temp write_opened fdopen write_file_content write_content prepare_reader
    suppress_not_found open_root open_directory_at create_file_at mkdir_at add_child write_to
    replace_at unlink_at open_call normalize_sub_path
run_write w = write_file 8 0 (codes "d/../d/g") (in_memory (1 ∷ 2 ∷ [])) (codes "t") w

run_read : Text → World → Result Exception Bytes × World
unfolding read_file with_parent descend open_next open_root open_directory_at open_file_at fstat
    file_payload fdopen make_payload open_call normalize_sub_path
run_read path w = read_file 0 path w

read_after_write : (run_read (codes "d/g") (run_write world).1).0 ≡ ok (1 ∷ 2 ∷ [])
unfolding run_read run_write
read_after_write = refl

-- Neither a link nor what would lie behind it is served.
link_not_found :
    ((run_read (codes "out") world).0 ≡ err (os_error enoent))
    × ((run_read (codes "out/passwd") world).0 ≡ err (os_error enoent))
unfolding run_read
link_not_found = (refl, refl)

write_fails : (run_write full_disk).0 ≡ err (resource_limit storage_limit)
unfolding run_write
write_fails = refl

abbrev attributes : Attributes
attributes name (regular content) = (length content, 5)
attributes name n = (0, 6)

operations_close_example :
    (After 1 0 3 (read_file 0 (codes "f") full_disk))
    × (After 0 0 3 (stage_file 8 0 (codes "f") (in_memory (1 ∷ [])) (codes "t") full_disk))
    × (After 0 0 3 (commit_staged_file 0 (codes "f") (codes "t") full_disk))
    × (After 0 0 3 (discard_staged_file 0 (codes "f") (codes "t") full_disk))
    × (After 0 0 3 (write_file 8 0 (codes "f") (in_memory (1 ∷ [])) (codes "t") full_disk))
    × (After 0 0 3 (delete_file 0 (codes "f") full_disk))
    × (After 0 0 3 (list_directory attributes 0 (codes "f") full_disk))
operations_close_example =
    operations_close attributes 8 0 (codes "f") (codes "f") (codes "t") (in_memory (1 ∷ []))
      (codes "t") full_disk

pub fresh_disk : IsFresh world.fs
fresh_disk = λ i h. ground arith

write_returns :
    (write_file 8 0 (codes "d/../d/g") (in_memory (1 ∷ 2 ∷ [])) (codes "t") world).0 ≡ ok tt
unfolding run_write
write_returns = ap (λ (r : Result Exception (Unit {0}) × World). r.0) (refl {a = run_write world})

write_file-read_file_example :
    (c : Bytes) × (read_content (in_memory (1 ∷ 2 ∷ [])) 8 ≡ ok c)
    × ((read_file 0 (codes "d/../d/g") (
          calm
            (write_file 8 0 (codes "d/../d/g") (in_memory (1 ∷ 2 ∷ [])) (codes "t") world).1.fs
            3)).0
        ≡ ok c)
write_file-read_file_example =
    write_file-read_file 8 0 (codes "d/../d/g") (in_memory (1 ∷ 2 ∷ [])) (codes "t") world 3
      fresh_disk write_returns

pub new_token : child world.fs 0 (temporary_name (codes "t")) ≡ none
unfolding child entry text_eq
new_token = refl

g_is_free : IsNoDirectory world.fs 0 (codes "g")
unfolding child entry text_eq
g_is_free = λ j (e, k). cc

g_accepted : normalize_sub_path (codes "/g") ≡ ok (codes "g")
unfolding normalize_sub_path
g_accepted = refl

within_cap :
    read_content (stream (chunk (1 ∷ 2 ∷ []) ∷ chunk (3 ∷ []) ∷ [])) 8 ≡ ok (1 ∷ 2 ∷ 3 ∷ [])
unfolding read_content read_loop prepare_reader
within_cap = refl

write_file-serves_example :
    ((write_file 8 0
        (codes "/g")
        (stream (chunk (1 ∷ 2 ∷ []) ∷ chunk (3 ∷ []) ∷ []))
        (codes "t")
        (calm world.fs 3)).0
      ≡ ok tt)
    × ((read_file 0 (codes "/g") (
          calm
            (write_file 8 0
              (codes "/g")
              (stream (chunk (1 ∷ 2 ∷ []) ∷ chunk (3 ∷ []) ∷ []))
              (codes "t")
              (calm world.fs 3)).1.fs
            3)).0
        ≡ ok (1 ∷ 2 ∷ 3 ∷ []))
unfolding split
write_file-serves_example =
    write_file-serves world.fs 3 8 0 0 (codes "/g") (codes "g")
      (stream (chunk (1 ∷ 2 ∷ []) ∷ chunk (3 ∷ []) ∷ [])) (codes "t") (1 ∷ 2 ∷ 3 ∷ []) fresh_disk
      g_accepted refl (_, refl) new_token g_is_free within_cap

f_accepted : normalize_sub_path (codes "f") ≡ ok (codes "f")
unfolding normalize_sub_path
f_accepted = refl

d_g_accepted : normalize_sub_path (codes "d/../d/g") ≡ ok (codes "d/g")
unfolding normalize_sub_path
d_g_accepted = refl

names_apart : last (split slash (codes "d/g")) ≡ last (split slash (codes "f")) → ⊥
unfolding split text_eq
names_apart h =
    let t : false ≡ true =
      (text_eq_iff (last (split slash (codes "d/g"))) (last (split slash (codes "f")))).1 h in
    cc

g-AreApart : (fs : Fs) → AreApart fs 0 (codes "d/../d/g") (codes "f")
g-AreApart fs p q k e e2 r r2 same =
    let p_g = ok_inj (sym e ∙ d_g_accepted) in
    let q_f = ok_inj (sym e2 ∙ f_accepted) in
    names_apart (
      subst (λ x. last (split slash x) ≡ last (split slash (codes "f"))) p_g
        (subst (λ x. last (split slash p) ≡ last (split slash x)) q_f same))

read_f : (run_read (codes "f") (calm world.fs 3)).0 ≡ ok (7 ∷ [])
unfolding run_read
read_f = refl

-- The upload has failed on the disk that is full.
write_file-read_other_example :
    (read_file 0 (codes "f") (
      calm
        (write_file 8 0 (codes "d/../d/g") (in_memory (1 ∷ 2 ∷ [])) (codes "t") full_disk).1.fs
        3)).0
    ≡ ok (7 ∷ [])
unfolding run_read
write_file-read_other_example =
    write_file-read_other 8 0 (codes "d/../d/g") (codes "f") (in_memory (1 ∷ 2 ∷ [])) (codes "t")
      (7 ∷ []) full_disk 3 fresh_disk read_f
      (g-AreApart
        (write_file 8 0 (codes "d/../d/g") (in_memory (1 ∷ 2 ∷ [])) (codes "t") full_disk).1.fs)

at_root : Leads world.fs 0 [] [] 0
unfolding strip
at_root = inl (refl, (refl, refl))

listing_run :
    (list_directory attributes 0 [] world).0
    ≡ ok (
      [],
      record { name = codes "f"; kind = file_type; size = 1; modified_at = 5 }
          ∷ record { name = codes "out"; kind = symlink_type; size = 0; modified_at = 6 }
          ∷ [],
    )
unfolding list_directory list_open list_names sort_entries place_entry entry_of entry_type strip
    open_root open_call listdir stat_at without child entry text_eq text_leb
listing_run = refl

list_directory-lists_example :
    (entries : List Entry) × ((list_directory attributes 0 [] (calm world.fs 3)).0
      ≡ ok ([], entries))
    × IsSorted (names_of entries)
    × ((p : Text)
        → has p (names_of entries) ≡ (
            not (text_eq dot p)
            && (not (text_eq dotdot p) && is_some (describe attributes world.fs 0 p))))
    × All (Describes attributes world.fs 0) entries
list_directory-lists_example =
    list_directory-lists attributes world.fs 3 0 0 [] [] (_, refl) at_root

past_cap : read_content (stream (chunk (1 ∷ 2 ∷ []) ∷ chunk (3 ∷ []) ∷ [])) 2 ≡ err entity_too_large
unfolding read_content read_loop prepare_reader
past_cap = refl

write_file-refused_example :
    (fs : Fs) × (write_file 2 0
        (codes "/g")
        (stream (chunk (1 ∷ 2 ∷ []) ∷ chunk (3 ∷ []) ∷ []))
        (codes "t")
        (calm world.fs 3)
      ≡ (err (resource_limit file_size_limit), calm fs 3))
    × DiffersAt 10 world.fs fs
unfolding split
write_file-refused_example =
    write_file-refused world.fs 3 2 0 0 (codes "/g") (codes "g")
      (stream (chunk (1 ∷ 2 ∷ []) ∷ chunk (3 ∷ []) ∷ [])) (codes "t") entity_too_large fresh_disk
      g_accepted refl (_, refl) new_token past_cap
