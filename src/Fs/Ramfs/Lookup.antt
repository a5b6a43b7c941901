-- ===== src/Fs/Ramfs/Lookup.antt =====
-- Finding and listing nodes: `hnm_ramfs_string_equal` and `hnm_ramfs_list`.
use hnmos.Prelude.{
  ℕ, zero, suc, ◌+◌, ◌≡◌, refl, sym, ap, ap₂, ◌∙◌, ◌↔◌, Bool, true, false, ◌||◌, Option, none, some,
  List, [], ◌∷◌, ◌++◌, arith, leb, ltb, if◌then◌else◌, length, take, Bool-cases, inl, inr,
}
use mathlib.Core.List.{append-nil, append_assoc}
use hnmos.Fs.Ramfs.{
  Ramfs, Entry, Listing, texts_equal, string_equal, node_at, list_entries, list_max, list, read,
  target_path, is_directory,
}

texts_equal→eq : (a b : List ℕ) → texts_equal a b ≡ true → a ≡ b
unfolding texts_equal
texts_equal→eq [] [] e = refl
texts_equal→eq [] (d ∷ b) e = ground arith
texts_equal→eq (c ∷ a) [] e = ground arith
texts_equal→eq (c ∷ a) (d ∷ b) e =
    ap₂ (λ x (y : List ℕ). x ∷ y) (ground arith) (texts_equal→eq a b (ground arith))

pub texts_equal_self : (a : List ℕ) → texts_equal a a ≡ true
unfolding texts_equal
texts_equal_self [] = refl
texts_equal_self (c ∷ a) = ground (arith, texts_equal_self a)

-- The comparison of two C strings tells exactly whether they have the same characters.
pub texts_equal_iff : (a b : List ℕ) → (texts_equal a b ≡ true) ↔ (a ≡ b)
texts_equal_iff a b = (texts_equal→eq a b, λ e. ap (texts_equal a) (sym e) ∙ texts_equal_self a)

-- The nodes whose parent is a path, in the order of the entries.
unfoldable pub children : List Entry → ℕ → List ℕ → List ℕ
children [] i path = []
children (e ∷ es) i path =
    let rest = children es (i + 1) path in
    if string_equal e.parent_path (some path) then i ∷ rest else rest

abbrev pub listing : List ℕ → ℕ → Bool → Listing
listing nodes count truncated = record { nodes = nodes; count = count; truncated = truncated }

-- A listing with room for `room` more of the nodes `kids`.
abbrev grown : List ℕ → ℕ → Bool → ℕ → List ℕ → Listing
grown nodes count truncated room kids =
    listing (nodes ++ take room kids) (count + length (take room kids))
      (truncated || ltb room (length kids))

listing-ap :
    {n m : List ℕ} {c d : ℕ} {t u : Bool} → n ≡ m → c ≡ d → t ≡ u → listing n c t ≡ listing m d u
listing-ap p q r = λ i. listing (p i) (q i) (r i)

take-nil : (n : ℕ) → take {A = ℕ} n [] ≡ []
take-nil zero = refl
take-nil (suc n) = refl

grown-nil :
    (nodes : List ℕ) (count : ℕ) (t : Bool) (room : ℕ)
    → listing nodes count t ≡ grown nodes count t room []
grown-nil nodes count t room =
    listing-ap (sym (append-nil nodes) ∙ ap (λ l. nodes ++ l) (sym (take-nil room)))
      (omega (arith, ap {B = ℕ} length (take-nil room))) (ground arith)

grown-full :
    (nodes : List ℕ) (count : ℕ) (t : Bool) (i : ℕ) (kids : List ℕ)
    → grown nodes count true 0 kids ≡ grown nodes count t 0 (i ∷ kids)
grown-full nodes count t i kids = listing-ap refl refl (ground arith)

grown-next :
    (nodes : List ℕ) (count : ℕ) (t : Bool) (room i : ℕ) (kids : List ℕ)
    → grown (nodes ++ i ∷ []) (count + 1) t room kids ≡ grown nodes count t (suc room) (i ∷ kids)
grown-next nodes count t room i kids =
    listing-ap (append_assoc nodes (i ∷ []) (take room kids)) (omega arith) (ground arith)

-- One child more, with or without room for it; `next` is what the rest of the entries gives.
list_child :
    (es : List Entry) (i : ℕ) (path nodes : List ℕ) (count : ℕ) (t : Bool) (room : ℕ)
    → ((n : List ℕ) (c : ℕ) (u : Bool) (r : ℕ)
        → c + r ≡ list_max
        → list_entries es (i + 1) path (listing n c u) ≡ grown n c u r (children es (i + 1) path))
    → count + room ≡ list_max
    → list_entries es (i + 1) path (
        if leb list_max count
        then listing nodes count true
        else listing (nodes ++ i ∷ []) (count + 1) t)
      ≡ grown nodes count t room (i ∷ children es (i + 1) path)
list_child es i path nodes count t zero next h =
    let full : leb list_max count ≡ true = ground arith in
    rw full (next nodes count true 0 h ∙ grown-full nodes count t i (children es (i + 1) path))
list_child es i path nodes count t (suc room) next h =
    let some_room : leb list_max count ≡ false = ground arith in
    rw some_room (
      next (nodes ++ i ∷ []) (count + 1) t room (omega arith)
      ∙ grown-next nodes count t room i (children es (i + 1) path))

list_entries_lem :
    (es : List Entry) (i : ℕ) (path nodes : List ℕ) (count : ℕ) (t : Bool) (room : ℕ)
    → count + room ≡ list_max
    → list_entries es i path (listing nodes count t) ≡ grown nodes count t room (children es i path)
unfolding list_entries children
list_entries_lem [] i path nodes count t room h = grown-nil nodes count t room
list_entries_lem (x ∷ es) i path nodes count t room h =
    elim (Bool-cases (string_equal x.parent_path (some path))) [
      | inl child ↦ rw child (
          list_child es i path nodes count t room
            (λ n c u r. list_entries_lem es (i + 1) path n c u r) h)
      | inr other ↦ rw other (list_entries_lem es (i + 1) path nodes count t room h)
    ]

-- What the listing of a directory is to be: its first sixteen children in the order of the entries,
-- marked as truncated when there are more.
abbrev pub first_children : List Entry → List ℕ → Listing
first_children es path =
    let kids = children es 0 path in
    listing (take list_max kids) (length (take list_max kids)) (ltb list_max (length kids))

-- On a file system that has started, a listing is refused exactly where the path does not lead to a
-- directory; for a directory it has the first sixteen children in the order of the entries, and is
-- marked as truncated exactly when there are more.
pub list_lem :
    (path : Option (List ℕ)) (f : Ramfs)
    → f.ready ≡ true
    → list path f ≡ elim (read (some (target_path path)) f) [
      | none ↦ none
      | some i ↦
          if is_directory (node_at f.entries i).kind
          then some (first_children f.entries (target_path path))
          else none
    ]
unfolding list
list_lem path f on = simp on (
    ap
      (λ l. elim (read (some (target_path path)) f) [
        | none ↦ none
        | some i ↦ if is_directory (node_at f.entries i).kind then some l else none
      ])
      (list_entries_lem f.entries 0 (target_path path) [] 0 false list_max refl
        ∙ listing-ap refl (omega arith) refl))
