-- ===== src/Fs/Gate.antt =====
-- What passes `hnm_vfs_write_hnlang_draft`, kernel01/kernel/fs/vfs.c: the policy together with the
-- file system below.
use hnmos.Prelude.{
  ℕ, ◌≡◌, ◌≢◌, refl, Bool, true, false, not, ◌||◌, Option, some, List, arith, if◌then◌else◌,
}
use hnmos.Prelude.Buffer.{IsText}
use hnmos.Ai.Policy
use mathlib.Core.Path.{subst⁻¹}
use hnmos.Fs.Ramfs.{main_path, write_workspace_hnlang}
use hnmos.Fs.{is_none, Vfs, write_hnlang_draft}
use hnmos.Fs.Ramfs.Write.{
  IsValid, Rewrites, write_workspace_hnlang-refuses, write_workspace_hnlang_lem,
}

-- The workspace file passes the policy.
main_allowed :
    Policy.is_allow (Policy.decide_path Policy.write_hnlang_draft (some main_path)) ≡ true
unfolding Policy.decide_path Policy.decide Policy.has_prefix Policy.prefix_matches
    Policy.contains_parent_reference Policy.two_dots Policy.has_hnlang_suffix
main_allowed = refl

if-same : {A : Type 0} (b : Bool) (a : A) → (if b then a else a) ≡ a
if-same true a = refl
if-same false a = refl

-- A write by way of the file system layer is refused, and changes nothing, for every path but that
-- of the workspace file.
pub write_hnlang_draft-refuses :
    (path text : Option (List ℕ)) (v : Vfs)
    → path ≢ some main_path
    → write_hnlang_draft path text v ≡ (false, v)
unfolding write_hnlang_draft
write_hnlang_draft-refuses path text v n = rw (write_workspace_hnlang-refuses path text v.ramfs n) (
    if-same
      (not v.ready
        || is_none text
        || not (Policy.is_allow (Policy.decide_path Policy.write_hnlang_draft path)))
      (false, v))

-- A write to the workspace file passes on what the file system below answers.
passes :
    (text : List ℕ) (v : Vfs)
    → v.ready ≡ true
    → write_hnlang_draft (some main_path) (some text) v ≡ (
      (write_workspace_hnlang (some main_path) (some text) v.ramfs).0,
      record v { ramfs = (write_workspace_hnlang (some main_path) (some text) v.ramfs).1 },
    )
unfolding write_hnlang_draft
passes text v on = ground (arith, on, main_allowed)

-- On a file system layer that has started, over a valid file system, a C string is written to the
-- workspace file: a reader of that file then sees its first 1023 characters, every other path looks
-- as before, the file system stays valid and the layer stays started.
pub write_hnlang_draft_lem :
    (text : List ℕ) (v : Vfs)
    → v.ready ≡ true
    → IsValid v.ramfs
    → IsText text
    → ((write_hnlang_draft (some main_path) (some text) v).1.ready ≡ true)
      × IsValid (write_hnlang_draft (some main_path) (some text) v).1.ramfs
      × Rewrites text v.ramfs (
        (write_hnlang_draft (some main_path) (some text) v).0,
        (write_hnlang_draft (some main_path) (some text) v).1.ramfs,
      )
write_hnlang_draft_lem text v on valid t =
    let (rewrites, stays) = write_workspace_hnlang_lem text v.ramfs valid t in
    subst⁻¹
      (λ (r : Bool × Vfs).
        (r.1.ready ≡ true) × IsValid r.1.ramfs × Rewrites text v.ramfs (r.0, r.1.ramfs))
      (passes text v on) (on, stays, rewrites)
