-- ===== src/Fs/Ramfs/Start.antt =====
-- The file system after `hnm_ramfs_init`.
use hnmos.Prelude.{
  ℕ, ◌≡◌, ◌≢◌, refl, sym, ap, ◌∙◌, Bool, true, false, Option, none, some, List, [], ◌∷◌, arith,
  length, if◌then◌else◌, Bool-cases, inl, inr,
}
use hnmos.Prelude.Buffer.{c_str}
use hnmos.Fs.Ramfs.{
  Entry, Node, Data, no_data, constant, workspace_main, texts_equal, init, size_entries,
  initial_entries, main_path, workspace_draft_capacity,
}
use hnmos.Fs.Ramfs.Lookup.{texts_equal_iff}
use hnmos.Fs.Ramfs.Nodes.{node_of}
use hnmos.Fs.Ramfs.Write.{IsValid}

-- Each entry that uses the buffer has the path of the workspace file.
abbrev Owned : List Entry → Type 0
Owned [] = Unit
Owned (e ∷ es) = (e.node.content ≡ workspace_main → e.node.path ≡ main_path) × Owned es

content_or_none : Option Node → Data
content_or_none none = no_data
content_or_none (some n) = n.content

picked :
    (b : Bool) (a n : Node) (r : Option Node)
    → (if b then some a else r) ≡ some n
    → b ≡ true
    → a.content ≡ n.content
unfolding content_or_none
picked true a n r e b = ap content_or_none e
picked false a n r e b = ground arith

skipped :
    (b : Bool) (a n : Node) (r : Option Node)
    → (if b then some a else r) ≡ some n
    → b ≡ false
    → r ≡ some n
skipped true a n r e b = ground arith
skipped false a n r e b = e

node_of-Owned :
    (es : List Entry) (path : List ℕ) (n : Node)
    → Owned es
    → node_of es path ≡ some n
    → n.content ≡ workspace_main
    → path ≡ main_path
unfolding node_of
node_of-Owned [] path n o e c = ground arith
node_of-Owned (x ∷ es) path n o e c = elim (Bool-cases (texts_equal x.node.path path)) [
  | inl same ↦ sym ((texts_equal_iff x.node.path path).0 same) ∙ o.0 (found same ∙ c)
  | inr other ↦ node_of-Owned es path n o.1 (rest other) c
]
  where
    found : texts_equal x.node.path path ≡ true → x.node.content ≡ n.content
    found same = picked (texts_equal x.node.path path) x.node n (node_of es path) e same

    rest : texts_equal x.node.path path ≡ false → node_of es path ≡ some n
    rest other = skipped (texts_equal x.node.path path) x.node n (node_of es path) e other

is_main : Data → Bool
is_main workspace_main = true
is_main _ = false

-- The data pointer of an entry that does not use the buffer.
not_main : {A : Type 0} (d : Data) → is_main d ≡ false → d ≡ workspace_main → A
unfolding is_main
not_main d f e = absurd (ground (arith, sym f ∙ ap is_main e))

is_some : Option Node → Bool
is_some none = false
is_some (some n) = true

some≢none : (n : Node) → ◌≢◌ {A = Option Node} (some n) none
unfolding is_some
some≢none n e = ground (arith, ap is_some e)

-- The start leaves a valid file system, whatever its buffer of 1024 bytes holds.
pub init_opens :
    (workspace : List ℕ) (ready : Bool)
    → length workspace ≡ workspace_draft_capacity
    → IsValid (init (record { entries = initial_entries; workspace = workspace; ready = ready }))
unfolding init size_entries initial_entries node_of texts_equal is_main
init_opens workspace ready h = record {
  on = refl;
  room = h;
  has_main = some≢none _;
  owned = λ path n. node_of-Owned (size_entries (length (c_str workspace)) initial_entries) path n (
    not_main no_data refl,
    (
      not_main no_data refl,
      (
        not_main (constant _) refl,
        (
          not_main (constant _) refl,
          (not_main (constant _) refl, (not_main no_data refl, ((λ e. refl), tt))),
        ),
      ),
    ),
  );
}
