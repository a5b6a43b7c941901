-- ===== src/Ai/Policy/Paths.antt =====
-- The three tests on paths, against what they mean.
use hnmos.Prelude.{
  ℕ, suc, ◌+◌, ◌-◌, ◌≤◌, ◌≡◌, refl, sym, ap, ap₂, ◌∙◌, ◌↔◌, true, ◌&&◌, inl, inr, some, List, [],
  ◌∷◌, ◌++◌, arith, leb, ◌==◌, length, length-append, Bool-cases,
}
use hnmos.Prelude.Buffer.{codes}
use hnmos.Ai.Policy.{prefix_matches, two_dots, has_hnlang_suffix, char_at}

-- A text that begins with a prefix, that has two dots in a row, that ends in a suffix.
abbrev pub StartsWith : List ℕ → List ℕ → Type 0
StartsWith text prefix = (rest : List ℕ) × (text ≡ prefix ++ rest)

abbrev pub HasTwoDots : List ℕ → Type 0
HasTwoDots path = (before : List ℕ) × (rest : List ℕ) × (path ≡ before ++ (b'.' ∷ b'.' ∷ rest))

abbrev pub EndsWith : List ℕ → List ℕ → Type 0
EndsWith path suffix = (before : List ℕ) × (path ≡ before ++ suffix)

prefix_found : (text prefix : List ℕ) → prefix_matches text prefix ≡ true → StartsWith text prefix
unfolding prefix_matches
prefix_found text [] e = (text, refl)
prefix_found [] (c ∷ cs) e = cc
prefix_found (t ∷ ts) (c ∷ cs) e =
    let (rest, p) = prefix_found ts cs (ground arith) in (rest, ap₂ (λ a l. a ∷ l) (ground arith) p)

prefix_is : (prefix rest : List ℕ) → prefix_matches (prefix ++ rest) prefix ≡ true
unfolding prefix_matches
prefix_is [] rest = refl
prefix_is (c ∷ cs) rest = ground (arith, prefix_is cs rest)

pub prefix_matches_iff :
    (text prefix : List ℕ) → (prefix_matches text prefix ≡ true) ↔ StartsWith text prefix
prefix_matches_iff text prefix =
    (prefix_found text prefix, λ s. ap (λ t. prefix_matches t prefix) s.1 ∙ prefix_is prefix s.0)

dots_found : (path : List ℕ) → two_dots path ≡ true → HasTwoDots path
unfolding two_dots
dots_found [] e = cc
dots_found (c ∷ []) e = absurd (ground arith)
dots_found (c ∷ d ∷ cs) e = elim (Bool-cases ((c == b'.') && (d == b'.'))) [
  | inl t ↦ ([], cs, ap₂ (λ a b. a ∷ b ∷ cs) (ground arith) (ground arith))
  | inr f ↦
      let (before, rest, p) = dots_found (d ∷ cs) (ground arith) in
      (c ∷ before, rest, ap (λ l. c ∷ l) p)
]

dots_are : (before rest : List ℕ) → two_dots (before ++ (b'.' ∷ b'.' ∷ rest)) ≡ true
unfolding two_dots
dots_are [] rest = refl
dots_are (c ∷ cs) rest = ground (arith, dots_are cs rest)

pub two_dots_iff : (path : List ℕ) → (two_dots path ≡ true) ↔ HasTwoDots path
two_dots_iff path = (dots_found path, λ h. ap two_dots h.2 ∙ dots_are h.0 h.1)

-- The characters from an index on.
char_at-append :
    (before : List ℕ) (rest : List ℕ) (i : ℕ)
    → char_at (before ++ rest) (length before + i) ≡ char_at rest i
char_at-append [] rest i = ap (char_at rest) {y = i} (omega arith)
char_at-append (c ∷ cs) rest i =
    ap (char_at (c ∷ (cs ++ rest))) {y = suc (length cs + i)} (omega arith)
    ∙ char_at-append cs rest i

-- The last three characters are a list of three.
split_three :
    (path : List ℕ)
    → 3 ≤ length path
    → (before : List ℕ) × (a : ℕ) × (b : ℕ) × (c : ℕ) × (path ≡ before ++ (a ∷ b ∷ c ∷ []))
split_three [] h = absurd (omega arith)
split_three (a ∷ []) h = absurd (omega arith)
split_three (a ∷ b ∷ []) h = absurd (omega arith)
split_three (a ∷ b ∷ c ∷ []) h = ([], a, b, c, refl)
split_three (x ∷ a ∷ b ∷ c ∷ cs) h =
    let (before, p, q, r, e) = split_three (a ∷ b ∷ c ∷ cs) (omega arith) in
    (x ∷ before, p, q, r, ap (λ l. x ∷ l) e)

module _ (before : List ℕ) (a b c : ℕ) where
  abbrev whole : List ℕ
  whole = before ++ (a ∷ b ∷ c ∷ [])

  whole-length : length whole ≡ length before + 3
  whole-length = length-append before (a ∷ b ∷ c ∷ [])

  suffix_of : has_hnlang_suffix (some whole) ≡ ((a == b'.') && (b == b'h') && (c == b'n'))
  unfolding has_hnlang_suffix
  suffix_of =
      let at = λ (i : ℕ). char_at-append before (a ∷ b ∷ c ∷ []) i in
      let l = whole-length in
      let p : char_at whole (length whole - 3) ≡ a = ap (char_at whole) (omega arith) ∙ at 0 in
      let q : char_at whole (length whole - 2) ≡ b = ap (char_at whole) (omega arith) ∙ at 1 in
      let r : char_at whole (length whole - 1) ≡ c = ap (char_at whole) (omega arith) ∙ at 2 in
      let long : leb 3 (length whole) ≡ true = ground arith in rw (long, p, q, r)

pub has_hnlang_suffix_iff :
    (path : List ℕ) → (has_hnlang_suffix (some path) ≡ true) ↔ EndsWith path (codes ".hn")
has_hnlang_suffix_iff path =
    (to, λ s. ap (λ p. has_hnlang_suffix (some p)) s.1 ∙ suffix_of s.0 _ _ _)
  where
    long_enough : has_hnlang_suffix (some path) ≡ true → 3 ≤ length path
    long_enough e = unfold has_hnlang_suffix in ground arith

    spelled :
        (a b c : ℕ)
        → ((a == b'.') && (b == b'h') && (c == b'n')) ≡ true
        → ◌≡◌ {A = List ℕ} (a ∷ b ∷ c ∷ []) (codes ".hn")
    spelled a b c t = ground arith

    to : has_hnlang_suffix (some path) ≡ true → EndsWith path (codes ".hn")
    to e =
        let (before, a, b, c, p) = split_three path (long_enough e) in
        let t : ((a == b'.') && (b == b'h') && (c == b'n')) ≡ true =
          sym (suffix_of before a b c) ∙ ap (λ q. has_hnlang_suffix (some q)) (sym p) ∙ e in
        (before, p ∙ ap (λ l. before ++ l) (spelled a b c t))
