-- ===== src/Headers.antt =====
-- code_executor_api/file_helpers.py, `_content_disposition`. `urllib.parse.quote` with `safe=""` is
-- given.
use code_executor_api.Prelude.{
  ℕ, Text, codes, contains, Bool, false, ◌&&◌, ◌||◌, Option, none, some, List, [], ◌∷◌, ◌++◌, ◌==◌,
  leb, if◌then◌else◌, join, ◌≡◌, refl, arith, Lacks, Lacks-append, ◌<◌,
}
use code_executor_api.Path.{is_slash}

-- The characters that `_NON_ASCII_FILENAME` spares
abbrev pub is_plain : ℕ → Bool
is_plain c =
    (leb b'A' c && leb c b'Z')
    || (leb b'a' c && leb c b'z')
    || (leb b'0' c && leb c b'9')
    || (c == b'.')
    || (c == b'_')
    || (c == b'-')

abbrev pub underscore : ℕ
underscore = b'_'

-- `sub_path.replace("/", "_")`
unfoldable pub without_slashes : Text → Text
without_slashes [] = []
without_slashes (c ∷ s) = (if is_slash c then underscore else c) ∷ without_slashes s

-- `_NON_ASCII_FILENAME.sub("_", s)`
unfoldable pub plain_text : Text → Text
plain_text [] = []
plain_text (c ∷ s) = (if is_plain c then c else underscore) ∷ plain_text s

abbrev pub or_attachment : Text → Text
or_attachment [] = codes "attachment"
or_attachment (c ∷ s) = c ∷ s

abbrev pub quote_mark : ℕ
quote_mark = 34

abbrev pub fallback : Text → Text
fallback sub_path = or_attachment (plain_text (without_slashes sub_path))

abbrev pub quoted : Text → Text → Text
quoted name value = name ++ (codes "=" ++ (quote_mark ∷ (value ++ (quote_mark ∷ []))))

abbrev pub name_parameter : Option Text → List Text
name_parameter none = []
name_parameter (some field_name) = quoted (codes "name") field_name ∷ []

-- `_content_disposition`
unfoldable pub content_disposition : (Text → Text) → Text → Option Text → Text
unfolding join
content_disposition quote sub_path field_name = join (codes "; ") (
    codes "attachment"
    ∷ (name_parameter field_name
        ++ (quoted (codes "filename") (fallback sub_path)
            ∷ (codes "filename*=UTF-8''" ++ quote sub_path)
            ∷ [])))

contains-plain_text : (c : ℕ) (s : Text) → is_plain c ≡ false → contains c (plain_text s) ≡ false
unfolding contains plain_text
contains-plain_text c [] h = refl
contains-plain_text c (d ∷ s) h = ground (arith, contains-plain_text c s h)

-- The two parameters that are always there.
abbrev parameters : (Text → Text) → Text → Text
parameters quote sub_path =
    quoted (codes "filename") (fallback sub_path)
    ++ (codes "; " ++ (codes "filename*=UTF-8''" ++ quote sub_path))

module _ (c : ℕ) (h : c < 32) where
  Lacks-fallback : (s : Text) → Lacks c (fallback s)
  unfolding contains
  Lacks-fallback s =
      kept (plain_text (without_slashes s))
        (contains-plain_text c (without_slashes s) (ground arith))
    where
      kept : (t : Text) → Lacks c t → Lacks c (or_attachment t)
      kept [] g = ground arith
      kept (d ∷ t) g = g

  Lacks-quoted : (name value : Text) → Lacks c name → Lacks c value → Lacks c (quoted name value)
  unfolding contains
  Lacks-quoted name value n v = Lacks-append c name _ n (
      Lacks-append c (codes "=" ++ (quote_mark ∷ [])) _ (ground arith)
        (Lacks-append c value _ v (ground arith)))

  Lacks-parameters :
      (quote : Text → Text) (sub_path : Text)
      → Lacks c (quote sub_path)
      → Lacks c (parameters quote sub_path)
  unfolding contains
  Lacks-parameters quote sub_path q =
      Lacks-append c (quoted (codes "filename") (fallback sub_path)) _
        (Lacks-quoted (codes "filename") (fallback sub_path) (ground arith)
          (Lacks-fallback sub_path))
        (Lacks-append c (codes "; filename*=UTF-8''") _ (ground arith) q)

-- Whatever name the executed code gives a file, the header has no control character, such as a
-- carriage return or a line feed, if `quote` of the name has none and the field's name has none.
pub content_disposition-Lacks :
    (c : ℕ) (quote : Text → Text) (sub_path field_name : Text)
    → c < 32
    → Lacks c (quote sub_path)
    → Lacks c field_name
    → Lacks c (content_disposition quote sub_path none)
      × Lacks c (content_disposition quote sub_path (some field_name))
unfolding content_disposition contains
content_disposition-Lacks c quote sub_path field_name h q f = (
  Lacks-append c (codes "attachment; ") (parameters quote sub_path) (ground arith)
      (Lacks-parameters c h quote sub_path q),
  Lacks-append c (codes "attachment; ")
      (quoted (codes "name") field_name ++ (codes "; " ++ parameters quote sub_path)) (ground arith)
      (Lacks-append c (quoted (codes "name") field_name) (codes "; " ++ parameters quote sub_path)
        (Lacks-quoted c h (codes "name") field_name (ground arith) f)
        (Lacks-append c (codes "; ") (parameters quote sub_path) (ground arith)
          (Lacks-parameters c h quote sub_path q))),
)
