-- ===== src/Fs/Ramfs/Write.antt =====
-- Writing the workspace file, and reading it back: `hnm_ramfs_write_workspace_hnlang`.
use hnmos.Prelude.{
  ℕ, ◌-◌, ◌≡◌, ◌≢◌, refl, sym, ap, ap₂, ◌∙◌, Bool, true, false, Option, none, some, List, [], ◌∷◌,
  arith, if◌then◌else◌, length, take, set, Bool-cases, inl, inr,
}
use mathlib.Core.Path.{subst⁻¹}
use hnmos.Prelude.{length-set}
use hnmos.Prelude.Buffer.{
  length-copy_from, copied, c_str, copy_from, copy_text, c_str-copy_text, IsText,
}
use hnmos.Fs.Ramfs.{
  Ramfs, Entry, Node, Data, no_data, constant, workspace_main, texts_equal, string_equal,
  target_path, write_workspace_hnlang, store_entry, main_path, workspace_draft_capacity,
}
use hnmos.Fs.Ramfs.Lookup.{texts_equal_iff, texts_equal_self}
use hnmos.Fs.Ramfs.Nodes.{data_text, node_of, option_map, seen, contents, contents_lem}

abbrev stored_node : ℕ → Node → Node
stored_node len n = record n { size = len; content = workspace_main }

-- A write is refused, and changes nothing, for every path but that of the workspace file.
pub write_workspace_hnlang-refuses :
    (path text : Option (List ℕ)) (f : Ramfs)
    → path ≢ some main_path
    → write_workspace_hnlang path text f ≡ (false, f)
unfolding write_workspace_hnlang string_equal
write_workspace_hnlang-refuses path none f n = refl
write_workspace_hnlang-refuses none (some t) f n = ground arith
write_workspace_hnlang-refuses (some p) (some t) f n = elim (Bool-cases (texts_equal p main_path)) [
  | inl e ↦ absurd (n (ap some ((texts_equal_iff p main_path).0 e)))
  | inr e ↦ ground arith
]

abbrev Stored : List Entry → ℕ → Option Node → Type 0
Stored es len o =
    ((store_entry es len).0 ≡ true)
    × (node_of (store_entry es len).1 main_path ≡ option_map (stored_node len) o)

store_entry-main :
    (es : List Entry) (len : ℕ) → node_of es main_path ≢ none → Stored es len (node_of es main_path)
unfolding store_entry node_of
store_entry-main [] len h = absurd (h refl)
store_entry-main (x ∷ es) len h = elim (Bool-cases (texts_equal x.node.path main_path)) [
  | inl same ↦ rw (same, same) (refl, refl)
  | inr other ↦ rw (other, other) (store_entry-main es len (λ e. h (rw other e)))
]

-- A path is not that of the workspace file, where the entry's is.
other_path :
    (x path : List ℕ)
    → path ≢ main_path
    → texts_equal x main_path ≡ true
    → texts_equal x path ≡ false
other_path x path n e = elim (Bool-cases (texts_equal x path)) [
  | inl same ↦
      absurd (n (sym ((texts_equal_iff x path).0 same) ∙ (texts_equal_iff x main_path).0 e))
  | inr other ↦ other
]

store_entry-other :
    (es : List Entry) (len : ℕ) (path : List ℕ)
    → path ≢ main_path
    → node_of (store_entry es len).1 path ≡ node_of es path
unfolding store_entry node_of
store_entry-other [] len path n = refl
store_entry-other (x ∷ es) len path n = elim (Bool-cases (texts_equal x.node.path main_path)) [
  | inl same ↦ rw (same, other_path x.node.path path n same) refl
  | inr other ↦ rw other (
      ap (λ (r : Option Node). if texts_equal x.node.path path then some x.node else r)
        (store_entry-other es len path n))
]

-- A file system that has started, with the workspace file, whose buffer no other file uses.
pub record IsValid (f : Ramfs) : Type 0 where
  pub on : f.ready ≡ true
  pub room : length f.workspace ≡ workspace_draft_capacity
  pub has_main : node_of f.entries main_path ≢ none
  pub owned :
      (path : List ℕ) (n : Node)
      → node_of f.entries path ≡ some n
      → n.content ≡ workspace_main
      → path ≡ main_path

-- The state that a write to the workspace file leaves.
abbrev written : List ℕ → Ramfs → Ramfs
written text f =
    let (buffer, len) = copy_from f.workspace 0 workspace_draft_capacity text in
    record f { workspace = set buffer len 0; entries = (store_entry f.entries len).1 }

write-written :
    (text : List ℕ) (f : Ramfs)
    → IsValid f
    → write_workspace_hnlang (some main_path) (some text) f ≡ (true, written text f)
unfolding write_workspace_hnlang string_equal
write-written text f v = ground (
  arith,
  v.on,
  texts_equal_self main_path,
  (store_entry-main f.entries (copy_from f.workspace 0 workspace_draft_capacity text).1
      v.has_main).0,
)

abbrev pub draft : List ℕ → List ℕ
draft text = take (workspace_draft_capacity - 1) text

written-workspace :
    (text : List ℕ) (f : Ramfs)
    → IsValid f
    → IsText text
    → c_str (written text f).workspace ≡ draft text
unfolding copy_text
written-workspace text f v t =
    c_str-copy_text f.workspace workspace_draft_capacity text (omega arith) (omega (arith, v.room))
      t

-- What a reader sees of the workspace file, whatever its node was.
seen-stored :
    (text : List ℕ) (f : Ramfs) (o : Option Node)
    → IsValid f
    → IsText text
    → o ≢ none
    → option_map
        (seen (written text f).workspace)
        (option_map (stored_node (copy_from f.workspace 0 workspace_draft_capacity text).1) o)
      ≡ some (length (draft text), draft text)
seen-stored text f none v t h = absurd (h refl)
seen-stored text f (some n) v t h =
    ap₂ (λ (a : ℕ) (b : List ℕ). some (a, b))
      (copied f.workspace workspace_draft_capacity text (omega arith) (omega (arith, v.room)))
      (written-workspace text f v t)

-- A node that does not use the buffer looks the same whatever the buffer holds.
seen-other :
    (o : Option Node) (w u : List ℕ)
    → ((n : Node) → o ≡ some n → n.content ≢ workspace_main)
    → option_map (seen w) o ≡ option_map (seen u) o
seen-other none w u h = refl
seen-other (some n) w u h = keeps n.content (h n refl)
  where
    keeps :
        (d : Data)
        → d ≢ workspace_main
        → ◌≡◌ {A = Option (ℕ × List ℕ)}
            (some (n.size, data_text d w))
            (some (n.size, data_text d u))
    keeps no_data h = refl
    keeps (constant t) h = refl
    keeps workspace_main h = absurd (h refl)

abbrev pub Rewrites : List ℕ → Ramfs → Bool × Ramfs → Type 0
Rewrites text f (done, g) =
    (done ≡ true)
    × (contents (some main_path) g ≡ some (length (draft text), draft text))
    × ((path : Option (List ℕ)) → target_path path ≢ main_path → contents path g ≡ contents path f)

written-Rewrites :
    (text : List ℕ) (f : Ramfs) → IsValid f → IsText text → Rewrites text f (true, written text f)
written-Rewrites text f v t = (refl, main, others)
  where
    len : ℕ
    len = (copy_from f.workspace 0 workspace_draft_capacity text).1

    main : contents (some main_path) (written text f) ≡ some (length (draft text), draft text)
    main =
        contents_lem (some main_path) (written text f) v.on
        ∙ ap (option_map (seen (written text f).workspace))
            (store_entry-main f.entries len v.has_main).1
        ∙ seen-stored text f (node_of f.entries main_path) v t v.has_main

    others :
        (path : Option (List ℕ))
        → target_path path ≢ main_path
        → contents path (written text f) ≡ contents path f
    others path n =
        contents_lem path (written text f) v.on
        ∙ ap (option_map (seen (written text f).workspace))
            (store_entry-other f.entries len (target_path path) n)
        ∙ seen-other (node_of f.entries (target_path path)) (written text f).workspace f.workspace
            (λ m e c. n (v.owned (target_path path) m e c))
        ∙ sym (contents_lem path f v.on)

written-IsValid : (text : List ℕ) (f : Ramfs) → IsValid f → IsValid (written text f)
written-IsValid text f v = record {
  on = v.on;
  room = omega (
    arith,
    v.room,
    length-copy_from f.workspace 0 workspace_draft_capacity text,
    length-set (copy_from f.workspace 0 workspace_draft_capacity text).0 len 0,
  );
  has_main = λ e.
      some_stored (node_of f.entries main_path) v.has_main
        (sym (store_entry-main f.entries len v.has_main).1 ∙ e);
  owned = owned;
}
  where
    len : ℕ
    len = (copy_from f.workspace 0 workspace_draft_capacity text).1

    some_stored : (o : Option Node) → o ≢ none → option_map (stored_node len) o ≡ none → ⊥
    some_stored none h e = h refl
    some_stored (some n) h e = ground arith

    owned :
        (path : List ℕ) (n : Node)
        → node_of (written text f).entries path ≡ some n
        → n.content ≡ workspace_main
        → path ≡ main_path
    owned path n e c = elim (Bool-cases (texts_equal path main_path)) [
      | inl same ↦ (texts_equal_iff path main_path).0 same
      | inr other ↦
          v.owned path n
            (sym (
                store_entry-other f.entries len path
                  (λ p. ground (arith, other, (texts_equal_iff path main_path).1 p)))
              ∙ e)
            c
    ]

-- A write of a C string to the workspace file of a valid file system succeeds; a reader of that file
-- then sees the first 1023 characters of the text, with their number as the size, and a reader of
-- any other path sees what was there before; the file system stays valid.
pub write_workspace_hnlang_lem :
    (text : List ℕ) (f : Ramfs)
    → IsValid f
    → IsText text
    → Rewrites text f (write_workspace_hnlang (some main_path) (some text) f)
      × IsValid (write_workspace_hnlang (some main_path) (some text) f).1
write_workspace_hnlang_lem text f v t =
    subst⁻¹ (λ r. Rewrites text f r × IsValid r.1) (write-written text f v)
      (written-Rewrites text f v t, written-IsValid text f v)
