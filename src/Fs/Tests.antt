-- ===== src/Fs/Tests.antt =====
-- The file system after its start, and a draft that is written to it.
use hnmos.Prelude.{
  ℕ, ◌≡◌, ◌≢◌, refl, ap, true, false, Option, none, some, List, arith, replicate, length,
  if◌then◌else◌,
}
use hnmos.Prelude.Buffer.{codes, IsText}
use hnmos.Fs.{Vfs, write_hnlang_draft}
use hnmos.Fs.Ramfs
use hnmos.Fs.Ramfs.{
  Ramfs, Listing, initial_entries, workspace_draft_capacity, main_path, list, read, target_path,
  is_directory, node_at,
}
use hnmos.Fs.Ramfs.Lookup.{first_children, list_lem}
use hnmos.Fs.Ramfs.Write.{IsValid, Rewrites}
use hnmos.Fs.Ramfs.Start.{init_opens}
use hnmos.Fs.Gate.{write_hnlang_draft-refuses, write_hnlang_draft_lem}

abbrev workspace : List ℕ
workspace = replicate workspace_draft_capacity 0

abbrev begun : Ramfs
begun = Ramfs.init (record { entries = initial_entries; workspace = workspace; ready = false })

begun-IsValid : IsValid begun
begun-IsValid = init_opens workspace false refl

abbrev mounted : Vfs
mounted = record { ready = true; ramfs = begun }

abbrev draft_text : List ℕ
draft_text = codes "hi"

draft_text-IsText : IsText draft_text
draft_text-IsText = ((λ e. ground (arith, e)), ((λ e. ground (arith, e)), tt))

write_hnlang_draft_example :
    ((write_hnlang_draft (some main_path) (some draft_text) mounted).1.ready ≡ true)
    × IsValid (write_hnlang_draft (some main_path) (some draft_text) mounted).1.ramfs
    × Rewrites draft_text begun (
      (write_hnlang_draft (some main_path) (some draft_text) mounted).0,
      (write_hnlang_draft (some main_path) (some draft_text) mounted).1.ramfs,
    )
write_hnlang_draft_example =
    write_hnlang_draft_lem draft_text mounted refl begun-IsValid draft_text-IsText

length_or : Option (List ℕ) → ℕ
length_or none = 0
length_or (some s) = length s

other_file : ◌≢◌ {A = Option (List ℕ)} (some (codes "/workspace/other.hn")) (some main_path)
unfolding length_or
other_file e = ground (arith, ap length_or e)

write_hnlang_draft-refuses_example :
    write_hnlang_draft (some (codes "/workspace/other.hn")) (some draft_text) mounted
    ≡ (false, mounted)
write_hnlang_draft-refuses_example =
    write_hnlang_draft-refuses (some (codes "/workspace/other.hn")) (some draft_text) mounted
      other_file

list_example :
    list (some (codes "/workspace")) begun
    ≡ elim (read (some (target_path (some (codes "/workspace")))) begun) [
      | none ↦ none
      | some i ↦
          if is_directory (node_at begun.entries i).kind
          then some (first_children begun.entries (target_path (some (codes "/workspace"))))
          else none
    ]
list_example = list_lem (some (codes "/workspace")) begun begun-IsValid.on
