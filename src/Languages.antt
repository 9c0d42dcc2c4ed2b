-- ===== src/Languages.antt =====
-- code_executor_api/languages.py, and the checks of code_executor_api/validation.py on a request's
-- fields.
use code_executor_api.Prelude.{
  Text, text_eq, codes, contains, Option, none, some, List, [], ◌∷◌, Result, ok, err, if◌then◌else◌,
}

pub record LanguageRuntime : Type 0 where
  pub image : Text
  pub command : List Text

abbrev runs : Text → List Text → LanguageRuntime
runs image command = record { image = image; command = command }

-- `LANGUAGES`
abbrev pub languages : List (Text × LanguageRuntime)
languages =
    (codes "python", runs (codes "python") (codes "python" ∷ codes "-c" ∷ []))
    ∷ (codes "bash", runs (codes "bash") (codes "bash" ∷ codes "-c" ∷ []))
    ∷ (codes "javascript", runs (codes "node") (codes "node" ∷ codes "--eval" ∷ []))
    ∷ (codes "typescript", runs (codes "node") (codes "tsx" ∷ codes "--eval" ∷ []))
    ∷ (codes "c", runs (codes "gcc") (codes "/executors/c.sh" ∷ []))
    ∷ (codes "cpp", runs (codes "gcc") (codes "/executors/cpp.sh" ∷ []))
    ∷ (codes "java", runs (codes "java") (codes "/executors/java.sh" ∷ []))
    ∷ (codes "csharp", runs (codes "dotnet") (codes "/executors/csharp.sh" ∷ []))
    ∷ (codes "rust", runs (codes "rust") (codes "/executors/rust.sh" ∷ []))
    ∷ []

unfoldable pub find_runtime : Text → List (Text × LanguageRuntime) → Option LanguageRuntime
find_runtime language [] = none
find_runtime language ((l, r) ∷ rest) =
    if text_eq l language then some r else find_runtime language rest

-- `LANGUAGES[language]`
unfoldable pub runtime_of : Text → Option LanguageRuntime
unfolding find_runtime
runtime_of language = find_runtime language languages

-- The messages of the `ValidationError`s that are not about a path.
pub data Invalid : Type 0 where
  missing_language missing_code null_in_code language_unsupported bad_encoding : Invalid
  malformed_multipart parts_must_be_files : Invalid
  unsupported_language : Text → Invalid

abbrev pub known : Text → Option LanguageRuntime → Result Invalid Text
known language none = err (unsupported_language language)
known language (some r) = ok language

-- `validate_language`, which returns what it has checked
unfoldable pub validate_language : Option Text → Result Invalid Text
validate_language none = err missing_language
validate_language (some language) = known language (runtime_of language)

-- `validate_code`
unfoldable pub validate_code : Option Text → Result Invalid Text
unfolding contains
validate_code none = err missing_code
validate_code (some code) = if contains 0 code then err null_in_code else ok code
