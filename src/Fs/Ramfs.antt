-- ===== src/Fs/Ramfs.antt =====
-- The RAM file system, kernel01/kernel/fs/ramfs.c. A path is a C string, or `none` for the null
-- pointer; a pointer to a node is the index of its entry. The writes to the log are left out.
pub mod Lookup
pub mod Nodes
pub mod Write
pub mod Start
use hnmos.Prelude.{
  ℕ, zero, suc, ◌+◌, Bool, true, false, not, ◌&&◌, ◌||◌, Option, none, some, List, [], ◌∷◌, ◌++◌,
  leb, ◌==◌, if◌then◌else◌, length, get_or, set, map,
}
use hnmos.Prelude.Buffer.{codes, c_str, copy_from, copy_text}

pub data NodeType : Type 0 where
  directory file : NodeType

-- What a node's data pointer points to: nothing, a constant text, or the workspace buffer.
pub data Data : Type 0 where
  no_data : Data
  constant : List ℕ → Data
  workspace_main : Data

-- `struct hnm_fs_node`
pub record Node : Type 0 where
  pub name : List ℕ
  pub path : List ℕ
  pub kind : NodeType
  pub size : ℕ
  pub content : Data

-- `struct hnm_ramfs_entry`
pub record Entry : Type 0 where
  pub node : Node
  pub parent_path : Option (List ℕ)

-- The static variables.
pub record Ramfs : Type 0 where
  pub entries : List Entry
  pub workspace : List ℕ
  pub ready : Bool

abbrev pub workspace_draft_capacity : ℕ
workspace_draft_capacity = 1024

abbrev pub list_max : ℕ
list_max = 16

abbrev pub main_path : List ℕ
main_path = codes "/workspace/main.hn"

abbrev pub root_path : List ℕ
root_path = codes "/"

abbrev pub version_text : List ℕ
version_text =
    codes "HNMos Kernel 01\nVersion: v0.10 filesystem foundation\nStorage: readonly kernel ramfs\n"

abbrev pub system_info_text : List ℕ
system_info_text =
    codes "Graphics: framebuffer launcher online\nInput: keyboard mouse event queue\n"
    ++ codes "Memory: PMM and early heap online\n"
    ++ codes "Filesystem: readonly system + writable HNLang workspace RAMFS\n"

abbrev pub readme_text : List ℕ
readme_text =
    codes "Welcome to HNMos.\nThis is the first built in readonly RAM filesystem.\n"
    ++ codes "Use ls and cat from the graphical terminal.\n"

abbrev dir_entry : List ℕ → List ℕ → Option (List ℕ) → Entry
dir_entry name path parent_path = record {
  node = record { name = name; path = path; kind = directory; size = 0; content = no_data };
  parent_path = parent_path;
}

abbrev text_entry : List ℕ → List ℕ → List ℕ → List ℕ → Entry
text_entry name path text parent_path = record {
  node = record {
    name = name;
    path = path;
    kind = file;
    size = length text;
    content = constant text;
  };
  parent_path = some parent_path;
}

-- `hnm_ramfs_entries` before the start.
unfoldable pub initial_entries : List Entry
initial_entries =
    dir_entry (codes "/") (codes "/") none
    ∷ dir_entry (codes "system") (codes "/system") (some (codes "/"))
    ∷ text_entry (codes "version") (codes "/system/version") version_text (codes "/system")
    ∷ text_entry (codes "info") (codes "/system/info") system_info_text (codes "/system")
    ∷ text_entry (codes "readme.txt") (codes "/readme.txt") readme_text (codes "/")
    ∷ dir_entry (codes "workspace") (codes "/workspace") (some (codes "/"))
    ∷ record {
      node = record {
        name = codes "main.hn";
        path = codes "/workspace/main.hn";
        kind = file;
        size = 0;
        content = workspace_main;
      };
      parent_path = some (codes "/workspace");
    }
    ∷ []

-- The loop of `hnm_ramfs_string_equal`: it stops at the first NUL, and compares there too.
unfoldable pub texts_equal : List ℕ → List ℕ → Bool
texts_equal [] [] = true
texts_equal [] (c ∷ cs) = false
texts_equal (c ∷ cs) [] = false
texts_equal (c ∷ cs) (d ∷ ds) = (c == d) && texts_equal cs ds

unfoldable pub string_equal : Option (List ℕ) → Option (List ℕ) → Bool
string_equal none right = false
string_equal (some left) none = false
string_equal (some left) (some right) = texts_equal left right

-- The root for a missing or an empty path.
abbrev pub target_path : Option (List ℕ) → List ℕ
target_path none = root_path
target_path (some []) = root_path
target_path (some (c ∷ cs)) = c ∷ cs

-- The index of the first entry with a path, counted from `i`.
unfoldable pub find_entry : List Entry → ℕ → List ℕ → Option ℕ
find_entry [] i path = none
find_entry (e ∷ es) i path =
    let rest = find_entry es (i + 1) path in if texts_equal e.node.path path then some i else rest

unfoldable pub size_entries : ℕ → List Entry → List Entry
size_entries len [] = []
size_entries len (e ∷ es) =
    (if texts_equal e.node.path main_path
      then record e { node = record (e.node) { size = len } }
      else e)
    ∷ size_entries len es

unfoldable pub init : Ramfs → Ramfs
init f = record f { entries = size_entries (length (c_str f.workspace)) f.entries; ready = true }

unfoldable pub read : Option (List ℕ) → Ramfs → Option ℕ
read path f = if not f.ready then none else find_entry f.entries 0 (target_path path)

-- `struct hnm_fs_list`, with the nodes that are filled in.
pub record Listing : Type 0 where
  pub nodes : List ℕ
  pub count : ℕ
  pub truncated : Bool

-- The loop of `hnm_ramfs_list` over the entries, counted from `i`.
unfoldable pub list_entries : List Entry → ℕ → List ℕ → Listing → Listing
list_entries [] i path l = l
list_entries (e ∷ es) i path l = list_entries es (i + 1) path (
    if string_equal e.parent_path (some path)
    then (if leb list_max l.count
        then record l { truncated = true }
        else record l { nodes = l.nodes ++ i ∷ []; count = l.count + 1 })
    else l)

abbrev pub empty_node : Node
empty_node = record { name = []; path = []; kind = file; size = 0; content = no_data }

abbrev pub node_at : List Entry → ℕ → Node
node_at es i = (get_or es i (record { node = empty_node; parent_path = none })).node

abbrev pub is_directory : NodeType → Bool
is_directory directory = true
is_directory file = false

unfoldable pub list : Option (List ℕ) → Ramfs → Option Listing
list path f =
    let target = target_path path in
    let found =
      list_entries f.entries 0 target (record { nodes = []; count = 0; truncated = false }) in
    if not f.ready then none else elim (read (some target) f) [
      | none ↦ none
      | some i ↦ if is_directory (node_at f.entries i).kind then some found else none
    ]

-- The first entry of the workspace file gets the size and the buffer.
unfoldable pub store_entry : List Entry → ℕ → Bool × List Entry
store_entry [] len = (false, [])
store_entry (e ∷ es) len =
    let (found, rest) = store_entry es len in
    if texts_equal e.node.path main_path
    then (true, record e { node = record (e.node) { size = len; content = workspace_main } } ∷ es)
    else (found, e ∷ rest)

-- The result, and the state after the call. The text is a C string, or `none`.
unfoldable pub write_workspace_hnlang : Option (List ℕ) → Option (List ℕ) → Ramfs → Bool × Ramfs
write_workspace_hnlang path none f = (false, f)
write_workspace_hnlang path (some text) f =
    let (buffer, len) = copy_from f.workspace 0 workspace_draft_capacity text in
    let (stored, entries) = store_entry f.entries len in
    if not f.ready || not (string_equal path (some main_path))
    then (false, f)
    else (stored, record f { workspace = set buffer len 0; entries = entries })

unfoldable pub node_count : Ramfs → ℕ
node_count f = if not f.ready then 0 else length f.entries
