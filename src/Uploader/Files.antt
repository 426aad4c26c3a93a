-- ===== src/Uploader/Files.antt =====
-- web/src/components/upload/MultiFileUploader.tsx: the list of files. `validateFile` is a
-- parameter that gives the error, or `none` if the file is good; the random ids are the values of
-- a sequence `ids` from a position on.
use sentry_usb.Base.{
  ℕ, suc, ◌-◌, Bool, false, not, ◌||◌, Option, none, some, List, [], ◌∷◌, ◌++◌, String, str_eq, leb,
  ltb, if◌then◌else◌, length, take, filter_by,
}
use sentry_usb.Base.Dict.{merge}
use Prim.Native.Char.{Char, code}
use Prim.Native.String.{[], ◌∷◌}
use sentry_usb.Base.{◌==◌}

pub record File : Type 0 where
  pub name : String
  pub content : String

pub data Status : Type 0 where
  pending uploading done error : Status

pub record FileEntry : Type 0 where
  pub id : String
  pub file : File
  pub name : String
  pub fields : List (String × String)
  pub status : Status
  pub error_text : Option String

-- The texts that are shown above the list.
pub data Message : Type 0 where
  maximum_files : ℕ → Message
  only_more : ℕ → ℕ → Message
  file_error : String → String → Message

pub record Uploader : Type 0 where
  pub files : List FileEntry
  pub expanded_id : Option String
  pub uploading_all : Bool
  pub upload_progress : Option (ℕ × ℕ)
  pub current_step : Option String
  pub errors : List Message

unfoldable pub mount : Uploader
mount = record {
  files = [];
  expanded_id = none;
  uploading_all = false;
  upload_progress = none;
  current_step = none;
  errors = [];
}

-- `name.replace(/\.[^/.]+$/, "")`: from the end, one or more characters that are neither a point
-- nor a slash, with a point before them. The pair is what is kept and, as long as the
-- match may still begin further to the left, how the rest reads.
pub data Tail : Type 0 where
  -- nothing stands behind; only such characters stand behind; the match is decided
  at_end plain decided : Tail

abbrev step_extension : Char → Tail × String → Tail × String
step_extension c (at_end, kept) =
    if code c == 46 || code c == 47 then (decided, c ∷ kept) else (plain, c ∷ kept)
step_extension c (plain, kept) =
    if code c == 46
    then (decided, [])
    else if code c == 47
    then (decided, c ∷ kept)
    else (plain, c ∷ kept)
step_extension c (decided, kept) = (decided, c ∷ kept)

unfoldable pub scan_extension : String → Tail × String
scan_extension [] = (at_end, [])
scan_extension (c ∷ s) = step_extension c (scan_extension s)

unfoldable pub strip_extension : String → String
strip_extension s = (scan_extension s).1

-- `addFiles` up to its first wait: the files to check
unfoldable pub add_begin : ℕ → List File → Uploader → Uploader × List File
add_begin max_files incoming u =
    let available = max_files - length u.files in
    if leb max_files (length u.files)
    then (record u { errors = maximum_files max_files ∷ [] }, [])
    else (
      record u {
        errors = if ltb available (length incoming) then only_more available max_files ∷ [] else [];
      },
      take available incoming,
    )

unfoldable pub new_entry : String → File → FileEntry
new_entry id f = record {
  id = id;
  file = f;
  name = strip_extension f.name;
  fields = [];
  status = pending;
  error_text = none;
}

-- The loop of `addFiles` over the files to check.
unfoldable pub validate_all :
    (File → Option String) → (ℕ → String) → ℕ → List File → List FileEntry × List Message
validate_all validate_file ids n [] = ([], [])
validate_all validate_file ids n (f ∷ fs) =
    let good = validate_all validate_file ids (suc n) fs in
    let bad = validate_all validate_file ids n fs in
    elim (validate_file f) [
      | none ↦ (new_entry (ids n) f ∷ good.0, good.1)
      | some e ↦ (bad.0, file_error f.name e ∷ bad.1)
    ]

abbrev pub or_first : Option String → List FileEntry → Option String
or_first (some id) entries = some id
or_first none [] = none
or_first none (e ∷ es) = some e.id

-- The end of `addFiles`, on the list as it is by then: other events can come during its waits.
unfoldable pub add_finish : List FileEntry × List Message → Uploader → Uploader
add_finish (validated, validation_errors) u = record u {
  errors = u.errors ++ validation_errors;
  files = u.files ++ validated;
  expanded_id = or_first u.expanded_id validated;
}

abbrev pub is_id : String → FileEntry → Bool
is_id id f = str_eq f.id id

abbrev pub collapse : String → Option String → Option String
collapse id none = none
collapse id (some e) = if str_eq e id then none else some e

unfoldable pub remove_file : String → Uploader → Uploader
remove_file id u = record u {
  files = filter_by (λ f. not (is_id id f)) u.files;
  expanded_id = collapse id u.expanded_id;
}

-- `prev.map((f) => f.id === id ? change(f) : f)`
abbrev pub map_entry : String → (FileEntry → FileEntry) → List FileEntry → List FileEntry
map_entry id change [] = []
map_entry id change (f ∷ fs) = (if is_id id f then change f else f) ∷ map_entry id change fs

abbrev pub or_name : String → Option String → String
or_name old none = old
or_name old (some new) = new

abbrev pub or_fields :
    List (String × String) → Option (List (String × String)) → List (String × String)
unfolding merge
or_fields old none = old
or_fields old (some new) = merge old new

unfoldable pub update_entry :
    String → Option String → Option (List (String × String)) → Uploader → Uploader
update_entry id name fields u = record u {
  files =
      map_entry id
        (λ f. record f { name = or_name f.name name; fields = or_fields f.fields fields }) u.files;
}

unfoldable pub clear_all : Uploader → Uploader
clear_all u = record u { files = []; expanded_id = none; errors = []; upload_progress = none }
