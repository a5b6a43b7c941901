-- ===== src/Fs/Ramfs/Nodes.antt =====
-- The node that a path leads to, and what a reader sees of it: `hnm_ramfs_read`.
use hnmos.Prelude.{
  ℕ, suc, ◌+◌, ◌≡◌, refl, ap, ◌∙◌, true, Option, none, some, List, [], ◌∷◌, arith, if◌then◌else◌,
  Bool-cases, inl, inr,
}
use hnmos.Prelude.Buffer.{c_str}
use hnmos.Fs.Ramfs.{
  Ramfs, Entry, Node, Data, no_data, constant, workspace_main, texts_equal, find_entry, node_at,
  target_path, read,
}

-- The text that a node's data pointer leads to.
abbrev pub data_text : Data → List ℕ → List ℕ
data_text no_data workspace = []
data_text (constant t) workspace = t
data_text workspace_main workspace = c_str workspace

-- The first node with a path.
unfoldable pub node_of : List Entry → List ℕ → Option Node
node_of [] path = none
node_of (e ∷ es) path =
    let rest = node_of es path in if texts_equal e.node.path path then some e.node else rest

abbrev pub option_map : {A B : Type 0} → (A → B) → Option A → Option B
option_map g none = none
option_map g (some a) = some (g a)

find_entry-suc :
    (es : List Entry) (i : ℕ) (path : List ℕ)
    → find_entry es (i + 1) path ≡ option_map suc (find_entry es i path)
unfolding find_entry
find_entry-suc [] i path = refl
find_entry-suc (e ∷ es) i path = elim (Bool-cases (texts_equal e.node.path path)) [
  | inl same ↦ rw same (ap some (omega arith))
  | inr other ↦ rw other (find_entry-suc es (i + 1) path)
]

map-node :
    (e : Entry) (es : List Entry) (o : Option ℕ)
    → option_map (node_at (e ∷ es)) (option_map suc o) ≡ option_map (node_at es) o
map-node e es none = refl
map-node e es (some i) = refl

-- The index that the search finds leads to the first node with the path.
find_entry_lem :
    (es : List Entry) (path : List ℕ)
    → option_map (node_at es) (find_entry es 0 path) ≡ node_of es path
unfolding find_entry node_of
find_entry_lem [] path = refl
find_entry_lem (e ∷ es) path = elim (Bool-cases (texts_equal e.node.path path)) [
  | inl same ↦ rw same refl
  | inr other ↦ rw other (
      ap (option_map (node_at (e ∷ es))) (find_entry-suc es 0 path)
      ∙ map-node e es (find_entry es 0 path)
      ∙ find_entry_lem es path)
]

-- The size and the text of a node.
abbrev pub seen : List ℕ → Node → ℕ × List ℕ
seen workspace n = (n.size, data_text n.content workspace)

-- What a reader of a path sees.
abbrev pub contents : Option (List ℕ) → Ramfs → Option (ℕ × List ℕ)
contents path f = option_map (seen f.workspace) (option_map (node_at f.entries) (read path f))

pub contents_lem :
    (path : Option (List ℕ)) (f : Ramfs)
    → f.ready ≡ true
    → contents path f ≡ option_map (seen f.workspace) (node_of f.entries (target_path path))
unfolding read
contents_lem path f on =
    simp on (ap (option_map (seen f.workspace)) (find_entry_lem f.entries (target_path path)))
