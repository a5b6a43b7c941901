-- ===== src/Fs.antt =====
-- The file system layer, kernel01/kernel/fs/vfs.c, over `Fs.Ramfs`: a write has to pass the policy
-- of `Ai.Policy`. The writes to the log are left out.
pub mod Ramfs
pub mod Gate
mod Tests
use Prim.Native.String.{String}
use hnmos.Prelude.{ℕ, Bool, true, false, not, ◌||◌, Option, none, some, List, if◌then◌else◌}
use hnmos.Ai.Policy
use hnmos.Fs.Ramfs.{NodeType, directory, file, Listing}

-- The static flag, with the file system below.
pub record Vfs : Type 0 where
  pub ready : Bool
  pub ramfs : Ramfs.Ramfs

unfoldable pub init : Vfs → Vfs
init v = record { ready = true; ramfs = Ramfs.init v.ramfs }

unfoldable pub read : Option (List ℕ) → Vfs → Option ℕ
read path v = if not v.ready then none else Ramfs.read path v.ramfs

unfoldable pub list : Option (List ℕ) → Vfs → Option Listing
list path v = if not v.ready then none else Ramfs.list path v.ramfs

abbrev pub is_none : Option (List ℕ) → Bool
is_none none = true
is_none (some t) = false

unfoldable pub write_hnlang_draft : Option (List ℕ) → Option (List ℕ) → Vfs → Bool × Vfs
write_hnlang_draft path text v =
    let (done, ramfs) = Ramfs.write_workspace_hnlang path text v.ramfs in
    if not v.ready
      || is_none text
      || not (Policy.is_allow (Policy.decide_path Policy.write_hnlang_draft path))
    then (false, v)
    else (done, record v { ramfs = ramfs })

unfoldable pub node_count : Vfs → ℕ
node_count v = if not v.ready then 0 else Ramfs.node_count v.ramfs

unfoldable pub node_type_name : NodeType → String
node_type_name directory = "dir"
node_type_name file = "file"
