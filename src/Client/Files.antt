-- ===== src/Client/Files.antt =====
-- KdDeskTC_Client/libs/hbb_common/src/fs.rs, lines 17 to 195: what a directory holds, and the files
-- below it. What the system answers is a parameter, and so is `Path::join`.
use kd_desk_tc.Prelude.{
  ℕ, zero, suc, ◌+◌, ◌/◌, ◌%◌, ◌^◌, Bool, true, false, not, ◌&&◌, Option, none, some, List, [], ◌∷◌,
  ◌++◌, ◌==◌, list_eq, nat_eq, if◌then◌else◌,
}
use kd_desk_tc.Strings.{bytes}
use kd_desk_tc.Proto.{Text}
use kd_desk_tc.Client.Proto.{FileEntry}

-- `symlink_metadata`; the time is in seconds since 1970, or 0 if there is none.
pub record Metadata : Type 0 where
  pub file_attributes : ℕ
  pub is_symlink : Bool
  pub len : ℕ
  pub modified : ℕ

-- An entry of a directory. A name that is not UTF-8 is empty.
pub record DirEntry : Type 0 where
  pub file_name : Text
  pub meta : Option Metadata
  pub is_dir : Bool

pub record System : Type 0 where
  pub join : Text → Text → Text
  pub is_dir : Text → Bool
  pub is_file : Text → Bool
  pub entries : Text → Option (List (Option DirEntry))
  pub metadata : Text → Option (ℕ × ℕ)
  pub logical_drives : ℕ

-- The numbers of `FileType` on the wire.
abbrev pub type_dir : ℕ
type_dir = 0

abbrev pub type_dir_link : ℕ
type_dir_link = 2

abbrev pub type_dir_drive : ℕ
type_dir_drive = 3

abbrev pub type_file : ℕ
type_file = 4

abbrev pub type_file_link : ℕ
type_file_link = 5

unfoldable pub drive_entry : ℕ → FileEntry
drive_entry i = record {
  entry_type = type_dir_drive;
  name = (b'A' + i) ∷ bytes ":";
  is_hidden = false;
  size = 0;
  modified_time = 0;
}

-- The drives from number `i` on, `n` of them at most.
unfoldable pub drives_from : ℕ → ℕ → ℕ → List FileEntry
drives_from drives i zero = []
drives_from drives i (suc n) =
    let rest = drives_from drives (suc i) n in
    if drives / 2 ^ i % 2 == 1 then drive_entry i ∷ rest else rest

-- `meta.file_attributes() & 0x2 != 0`
unfoldable pub is_hidden : Metadata → Bool
is_hidden meta = meta.file_attributes / 2 % 2 == 1

unfoldable pub entry_type : Bool → Bool → ℕ
entry_type true is_symlink = if is_symlink then type_dir_link else type_dir
entry_type false is_symlink = if is_symlink then type_file_link else type_file

unfoldable pub to_entry : Text → Bool → Metadata → FileEntry
unfolding is_hidden entry_type
to_entry name dir meta = record {
  entry_type = entry_type dir meta.is_symlink;
  name = name;
  is_hidden = is_hidden meta;
  size = if not dir && not meta.is_symlink then meta.len else 0;
  modified_time = meta.modified;
}

-- One turn of the loop over the entries: the entry that it pushes, if any.
unfoldable pub read_entry : Bool → Option DirEntry → List FileEntry
unfolding is_hidden to_entry
read_entry include_hidden none = []
read_entry include_hidden (some e) = if e.file_name == [] then [] else elim e.meta [
  | none ↦ []
  | some meta ↦
      if is_hidden meta && not include_hidden then [] else to_entry e.file_name e.is_dir meta ∷ []
]

unfoldable pub read_entries : Bool → List (Option DirEntry) → List FileEntry
unfolding read_entry
read_entries include_hidden [] = []
read_entries include_hidden (e ∷ es) = read_entry include_hidden e ++ read_entries include_hidden es

unfoldable pub read_dir : System → Text → Bool → Option (List FileEntry)
unfolding drives_from read_entries
read_dir sys path include_hidden =
    if path == bytes "/"
    then some (drives_from sys.logical_drives 0 32)
    else elim (sys.entries path) [ none ↦ none | some es ↦ some (read_entries include_hidden es) ]

-- The entries of a directory, with those that `walk` finds below its directories.
unfoldable pub collect :
    (Text → Text → Option (List FileEntry)) → System → Text → Text → List FileEntry → List FileEntry
collect walk sys path pre [] = []
collect walk sys path pre (e ∷ es) =
    let rest = collect walk sys path pre es in
    if e.entry_type == type_file
    then record e { name = sys.join pre e.name } ∷ rest
    else if e.entry_type == type_dir
    then elim (walk (sys.join path e.name) (sys.join pre e.name)) [
      | none ↦ rest
      | some tmp ↦ tmp ++ rest
    ]
    else rest

unfoldable pub file_entry : Option (ℕ × ℕ) → FileEntry
file_entry none = record {
  entry_type = type_file;
  name = [];
  is_hidden = false;
  size = 0;
  modified_time = 0;
}
file_entry (some m) = record {
  entry_type = type_file;
  name = [];
  is_hidden = false;
  size = m.0;
  modified_time = m.1;
}

-- The first number bounds how deep the directories are nested.
unfoldable pub read_dir_recursive : ℕ → System → Text → Text → Bool → Option (List FileEntry)
unfolding read_dir collect file_entry
read_dir_recursive zero sys path pre include_hidden = none
read_dir_recursive (suc depth) sys path pre include_hidden =
    if sys.is_dir path
    then elim (read_dir sys path include_hidden) [
      | none ↦ none
      | some es ↦
          some (collect (λ p q. read_dir_recursive depth sys p q include_hidden) sys path pre es)
    ]
    else if sys.is_file path
    then some (file_entry (sys.metadata path) ∷ [])
    else none

unfoldable pub get_recursive_files : ℕ → System → Text → Bool → Option (List FileEntry)
unfolding read_dir_recursive
get_recursive_files depth sys path include_hidden =
    read_dir_recursive depth sys path [] include_hidden
