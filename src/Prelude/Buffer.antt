-- ===== src/Prelude/Buffer.antt =====
-- C strings and character buffers. A C string is the list of its characters before the NUL; a
-- buffer is the list of all its bytes.
use Prim.Native.Char.{code}
use Prim.Native.String.{String}
use hnmos.Prelude.{
  ℕ, zero, suc, ◌+◌, ◌-◌, ◌≤◌, ◌<◌, ◌≡◌, ◌≢◌, refl, sym, ap, ap₂, ◌∙◌, false, List, [], ◌∷◌, ◌++◌,
  arith, ltb, ◌==◌, if◌then◌else◌, length, set, take, drop, length-append, length-set, length-take,
  lt→ltb,
}
use mathlib.Core.List.{append_assoc}

-- The characters of a literal.
abbrev pub codes : String → List ℕ
codes String.[] = []
codes (String.◌∷◌ first rest) = let others = codes rest in code first ∷ others

-- The string that a buffer holds.
unfoldable pub c_str : List ℕ → List ℕ
c_str [] = []
c_str (c ∷ cs) = let rest = c_str cs in if c == 0 then [] else c ∷ rest

-- No character of a C string is NUL.
abbrev pub IsText : List ℕ → Type 0
IsText [] = Unit
IsText (c ∷ cs) = (c ≢ 0) × IsText cs

-- `while (source[i] != '\0' && i + 1 < capacity) { dest[i] = source[i]; i++; }`
unfoldable pub copy_from : List ℕ → ℕ → ℕ → List ℕ → List ℕ × ℕ
copy_from dest i capacity [] = (dest, i)
copy_from dest i capacity (c ∷ cs) =
    let rest = copy_from (set dest i c) (i + 1) capacity cs in
    if ltb (i + 1) capacity then rest else (dest, i)

-- The loop, and the NUL behind what it wrote.
unfoldable pub copy_text : List ℕ → ℕ → List ℕ → List ℕ
copy_text dest capacity source =
    let (d, n) = copy_from dest 0 capacity source in if capacity == 0 then dest else set d n 0

pub set-append :
    (pre : List ℕ) (r v : ℕ) (rest : List ℕ)
    → set (pre ++ r ∷ rest) (length pre) v ≡ pre ++ v ∷ rest
set-append [] r v rest = refl
set-append (p ∷ pre) r v rest = ap (λ l. p ∷ l) (set-append pre r v rest)

pub length-copy_from :
    (dest : List ℕ) (i capacity : ℕ) (s : List ℕ)
    → length (copy_from dest i capacity s).0 ≡ length dest
unfolding copy_from
length-copy_from dest i capacity [] = refl
length-copy_from dest i capacity (c ∷ cs) =
    ground (arith, length-copy_from (set dest i c) (i + 1) capacity cs, length-set dest i c)

pub length-copy_text :
    (dest : List ℕ) (capacity : ℕ) (s : List ℕ) → length (copy_text dest capacity s) ≡ length dest
unfolding copy_text
length-copy_text dest capacity s = ground (
  arith,
  length-copy_from dest 0 capacity s,
  length-set (copy_from dest 0 capacity s).0 (copy_from dest 0 capacity s).1 0,
)

abbrev after : List ℕ → List ℕ → ℕ → List ℕ → List ℕ × ℕ
after pre rest room s =
    (pre ++ (take room s ++ drop (length (take room s)) rest), length pre + length (take room s))

-- One more character stands before the index.
after-next :
    (pre rest : List ℕ) (room c : ℕ) (s : List ℕ)
    → after (pre ++ c ∷ []) rest room s ≡ (
      pre ++ c ∷ (take room s ++ drop (length (take room s)) rest),
      length pre + suc (length (take room s)),
    )
after-next pre rest room c s =
    ap₂ (λ (l : List ℕ) (n : ℕ). (l, n)) (append_assoc pre (c ∷ []) _)
      (omega (arith, length-append pre (c ∷ [])))

copy_from_step :
    (pre rest : List ℕ) (x c capacity : ℕ) (cs : List ℕ)
    → length pre + 1 < capacity
    → copy_from (pre ++ x ∷ rest) (length pre) capacity (c ∷ cs)
      ≡ copy_from ((pre ++ c ∷ []) ++ rest) (length (pre ++ c ∷ [])) capacity cs
unfolding copy_from
copy_from_step pre rest x c capacity cs h = rw (lt→ltb _ _ h) (
    ap₂ (λ d i. copy_from d i capacity cs)
      (set-append pre x c rest ∙ sym (append_assoc pre (c ∷ []) rest))
      (omega (arith, length-append pre (c ∷ []))))

-- The loop puts as much of the source as fits behind what stands before the index.
copy_from_lem :
    (pre rest : List ℕ) (room capacity : ℕ) (s : List ℕ)
    → room < length rest
    → capacity ≡ length pre + suc room
    → copy_from (pre ++ rest) (length pre) capacity s ≡ after pre rest room s
unfolding copy_from
copy_from_lem pre rest zero capacity [] h e = ap (λ (n : ℕ). (pre ++ rest, n)) (omega arith)
copy_from_lem pre rest (suc room) capacity [] h e = ap (λ (n : ℕ). (pre ++ rest, n)) (omega arith)
copy_from_lem pre rest zero capacity (c ∷ cs) h e =
    let full : ltb (length pre + 1) capacity ≡ false = ground arith in
    rw full (ap (λ (n : ℕ). (pre ++ rest, n)) (omega arith))
copy_from_lem pre [] (suc room) capacity (c ∷ cs) h e = absurd (omega arith)
copy_from_lem pre (x ∷ rest) (suc room) capacity (c ∷ cs) h e =
    copy_from_step pre rest x c capacity cs (omega arith)
    ∙ copy_from_lem (pre ++ c ∷ []) rest room capacity cs (omega arith)
        (omega (arith, length-append pre (c ∷ [])))
    ∙ after-next pre rest room c cs

pub drop-cons :
    (n : ℕ) (rest : List ℕ) → n < length rest → (x : ℕ) × (drop n rest ≡ x ∷ drop (suc n) rest)
drop-cons n [] h = absurd (omega arith)
drop-cons zero (x ∷ rest) h = (x, refl)
drop-cons (suc n) (x ∷ rest) h = drop-cons n rest (omega arith)

-- A copy into a buffer puts the characters that fit, with room for the NUL, then the NUL; the rest
-- of the buffer stays.
pub copy_text_lem :
    (dest : List ℕ) (capacity : ℕ) (s : List ℕ)
    → 0 < capacity
    → capacity ≤ length dest
    → copy_text dest capacity s
      ≡ take (capacity - 1) s ++ 0 ∷ drop (suc (length (take (capacity - 1) s))) dest
unfolding copy_text
copy_text_lem dest capacity s h l =
    let room = capacity - 1 in
    let loop = copy_from_lem [] dest room capacity s (omega arith) (omega arith) in
    let full : (capacity == 0) ≡ false = ground arith in
    let (x, e) = drop-cons (length (take room s)) dest (omega (arith, length-take room s)) in
    rw full (
      ap (λ r. set r.0 r.1 0) loop
      ∙ ap₂ (λ d n. set d n 0) (ap (λ r. take room s ++ r) e) (omega arith)
      ∙ set-append (take room s) x 0 _)

pub c_str-append : (s rest : List ℕ) → IsText s → c_str (s ++ 0 ∷ rest) ≡ s
unfolding c_str
c_str-append [] rest t = refl
c_str-append (c ∷ cs) rest t = ground (arith, c_str-append cs rest t.1)

pub take-IsText : (n : ℕ) (s : List ℕ) → IsText s → IsText (take n s)
take-IsText zero s t = tt
take-IsText (suc n) [] t = tt
take-IsText (suc n) (c ∷ cs) t = (t.0, take-IsText n cs t.1)

-- The string that the buffer then holds is the source, cut to one less than the capacity.
pub c_str-copy_text :
    (dest : List ℕ) (capacity : ℕ) (s : List ℕ)
    → 0 < capacity
    → capacity ≤ length dest
    → IsText s
    → c_str (copy_text dest capacity s) ≡ take (capacity - 1) s
c_str-copy_text dest capacity s h l t =
    ap c_str (copy_text_lem dest capacity s h l) ∙ c_str-append _ _ (take-IsText _ s t)

-- The number of characters that a copy puts.
pub copied :
    (dest : List ℕ) (capacity : ℕ) (s : List ℕ)
    → 0 < capacity
    → capacity ≤ length dest
    → (copy_from dest 0 capacity s).1 ≡ length (take (capacity - 1) s)
copied dest capacity s h l =
    ap (λ r. r.1) (copy_from_lem [] dest (capacity - 1) capacity s (omega arith) (omega arith))
    ∙ omega arith
