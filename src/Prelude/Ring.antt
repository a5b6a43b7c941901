-- ===== src/Prelude/Ring.antt =====
-- Rings of `n` slots: the elements that wait between a tail and a head.
use hnmos.Prelude.{
  ℕ, zero, suc, ◌+◌, ◌-◌, ◌≤◌, ◌<◌, ◌≡◌, ◌≢◌, refl, ap, ap₂, ◌∙◌, true, false, List, [], ◌∷◌, ◌++◌,
  arith, ltb, leb, ◌==◌, if◌then◌else◌, length, get_or, set, get_or-set,
}

-- The slot at a distance below `2 * n`.
abbrev pub wrap : ℕ → ℕ → ℕ
wrap n k = if ltb k n then k else k - n

-- How many slots the head is ahead of the tail.
abbrev pub held : ℕ → ℕ → ℕ → ℕ
held n head tail = if leb tail head then head - tail else n - tail + head

module _ {ℓ} {A : Type ℓ} (n : ℕ) (d : A) where
  -- `k` elements from slot `i` on.
  unfoldable pub window : List A → ℕ → ℕ → List A
  window es i zero = []
  window es i (suc k) = get_or es i d ∷ window es (wrap n (i + 1)) k

  pub length-window : (es : List A) (i k : ℕ) → length (window es i k) ≡ k
  unfolding window
  length-window es i zero = refl
  length-window es i (suc k) = ap suc (length-window es (wrap n (i + 1)) k)

  pub window-snoc :
      (es : List A) (i k : ℕ)
      → i < n
      → k < n
      → window es i (suc k) ≡ window es i k ++ get_or es (wrap n (i + k)) d ∷ []
  unfolding window
  window-snoc es i zero h l = ap (λ (j : ℕ). get_or es j d ∷ []) (ground arith)
  window-snoc es i (suc k) h l =
      ap (λ t. get_or es i d ∷ t)
        (window-snoc es (wrap n (i + 1)) k (ground arith) (omega arith)
          ∙ ap (λ (j : ℕ). window es (wrap n (i + 1)) k ++ get_or es j d ∷ []) (ground arith))

  -- A write to the slot behind the window does not show in it.
  pub window-set :
      (es : List A) (i k h : ℕ) (v : A)
      → i < n
      → h < length es
      → h < n
      → k ≤ held n h i
      → window (set es h v) i k ≡ window es i k
  unfolding window
  window-set es i zero h v l e m b = refl
  window-set es i (suc k) h v l e m b =
      let differ : (h == i) ≡ false = ground arith in
      ap₂ (λ (x : A) (y : List A). x ∷ y) (get_or-set es h i v d e ∙ rw differ refl)
        (window-set es (wrap n (i + 1)) k h v (ground arith) e m (ground arith))

  -- A write at the head puts the element behind those that wait.
  pub window-push :
      (es : List A) (head tail : ℕ) (v : A)
      → length es ≡ n
      → head < n
      → tail < n
      → held n head tail + 1 < n
      → window (set es head v) tail (held n (wrap n (head + 1)) tail)
        ≡ window es tail (held n head tail) ++ v ∷ []
  window-push es head tail v size h t room =
      let more : held n (wrap n (head + 1)) tail ≡ suc (held n head tail) = ground arith in
      let here : wrap n (tail + held n head tail) ≡ head = ground arith in
      let same : (head == head) ≡ true = ground arith in
      ap (window (set es head v) tail) more
      ∙ window-snoc (set es head v) tail (held n head tail) t (omega arith)
      ∙ ap₂ (λ (x : List A) (y : A). x ++ y ∷ [])
          (window-set es tail (held n head tail) head v t (omega arith) h (omega arith))
          (ap (λ (j : ℕ). get_or (set es head v) j d) here
            ∙ get_or-set es head head v d (omega arith)
            ∙ rw same refl)

  -- The element at the tail is the oldest.
  pub window-pop :
      (es : List A) (head tail : ℕ)
      → head < n
      → tail < n
      → tail ≢ head
      → window es tail (held n head tail)
        ≡ get_or es tail d ∷ window es (wrap n (tail + 1)) (held n head (wrap n (tail + 1)))
  unfolding window
  window-pop es head tail h t apart =
      let fewer : held n head tail ≡ suc (held n head (wrap n (tail + 1))) = ground arith in
      ap (window es tail) fewer
