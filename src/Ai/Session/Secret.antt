-- ===== src/Ai/Session/Secret.antt =====
-- The secret is held only while it is typed: `hnm_ai_session_capture_character`,
-- `hnm_ai_session_backspace` and the operations that wipe.
use hnmos.Prelude.{
  ℕ, zero, suc, ◌+◌, ◌-◌, ◌≤◌, ◌<◌, ◌≡◌, refl, sym, ap, ap₂, ◌∙◌, Bool, true, false, not, ◌&&◌,
  ◌||◌, ◌⊎◌, List, [], ◌∷◌, ◌++◌, arith, leb, ltb, ◌==◌, if◌then◌else◌, length, set, replicate,
  Bool-cases, inl, inr, length-append, length-replicate,
}
use mathlib.Core.List.{append_assoc}
use mathlib.Core.Path.{subst, subst⁻¹}
use hnmos.Prelude.Buffer.{set-append}
use hnmos.Ai.Session.{
  Session, SessionStatus, is_entering, secret_capacity, wipe_from, wipe_secret, init,
  begin_subscription_login, begin_api_key, capture_character, backspace, cancel,
}

-- The characters that a key may have.
abbrev pub IsPrintable : List ℕ → Type 0
IsPrintable [] = Unit
IsPrintable (c ∷ cs) = (33 ≤ c) × (c ≤ 126) × IsPrintable cs

abbrev pub zeros : ℕ → List ℕ
zeros n = replicate n 0

-- The buffer with a key at its start and zeros behind.
abbrev pub padded : List ℕ → List ℕ
padded key = key ++ zeros (secret_capacity - length key)

-- The session holds the key that was typed so far, and nothing of it when no key is being typed.
pub record Holds (key : List ℕ) (s : Session) : Type 0 where
  pub buffer : s.secret ≡ padded key
  pub index : s.secret_index ≡ length key
  pub fits : length key < secret_capacity
  pub printable : IsPrintable key
  pub secret_only_typing : is_entering s.status ≡ false → key ≡ []

wipe_from_lem :
    (n : ℕ) (pre rest : List ℕ)
    → length rest ≡ n
    → wipe_from n (length pre) (pre ++ rest) ≡ pre ++ zeros n
unfolding wipe_from
wipe_from_lem zero pre [] e = refl
wipe_from_lem zero pre (x ∷ rest) e = absurd (omega arith)
wipe_from_lem (suc n) pre [] e = absurd (omega arith)
wipe_from_lem (suc n) pre (x ∷ rest) e =
    ap₂ (λ (i : ℕ) (l : List ℕ). wipe_from n i l) (omega (arith, length-append pre (0 ∷ [])))
      (set-append pre x 0 rest ∙ sym (append_assoc pre (0 ∷ []) rest))
    ∙ wipe_from_lem n (pre ++ 0 ∷ []) rest (omega arith)
    ∙ append_assoc pre (0 ∷ []) (zeros n)

pub wiped_secret :
    (secret : List ℕ)
    → length secret ≡ secret_capacity
    → wipe_from secret_capacity 0 secret ≡ padded []
wiped_secret secret h = wipe_from_lem secret_capacity [] secret h

-- A session with nothing typed, whatever its method and status.
abbrev IsWiped : Session → Type 0
IsWiped s = (s.secret ≡ padded []) × (s.secret_index ≡ 0)

pub wiped-Holds : (s : Session) → IsWiped s → Holds [] s
wiped-Holds s (b, i) = record {
  buffer = b;
  index = i;
  fits = omega arith;
  printable = tt;
  secret_only_typing = λ e. refl;
}

-- The operations that begin or end a session leave nothing of the secret in the buffer, whatever it
-- held: each of its 192 bytes is 0 and its index is 0.
pub wipes_lem :
    (s : Session)
    → length s.secret ≡ secret_capacity
    → Holds [] (init s)
      × Holds [] (begin_subscription_login s)
      × Holds [] (begin_api_key s)
      × Holds [] (cancel s)
unfolding init begin_subscription_login begin_api_key cancel wipe_secret
wipes_lem s h =
    let wiped = wiped_secret s.secret h in
    (
      wiped-Holds _ (wiped, refl),
      wiped-Holds _ (wiped, refl),
      wiped-Holds _ (wiped, refl),
      wiped-Holds _ (wiped, refl),
    )

pub length-padded :
    (key : List ℕ) → length key < secret_capacity → length (padded key) ≡ secret_capacity
length-padded key h = omega (
  arith,
  length-append key (zeros (secret_capacity - length key)),
  length-replicate {A = ℕ} (secret_capacity - length key) 0,
)

IsPrintable-snoc :
    (key : List ℕ) (c : ℕ) → IsPrintable key → 33 ≤ c → c ≤ 126 → IsPrintable (key ++ c ∷ [])
IsPrintable-snoc [] c p l u = (l, u, tt)
IsPrintable-snoc (k ∷ key) c p l u = (p.0, p.1, IsPrintable-snoc key c p.2 l u)

IsPrintable-prefix : (key : List ℕ) (c : ℕ) → IsPrintable (key ++ c ∷ []) → IsPrintable key
IsPrintable-prefix [] c p = tt
IsPrintable-prefix (k ∷ key) c p = (p.0, p.1, IsPrintable-prefix key c p.2)

-- Whether a character is taken into a key of `n` characters.
abbrev pub takes : ℕ → SessionStatus → ℕ → Bool
takes n status c = is_entering status && leb 33 c && leb c 126 && ltb n 191

-- What one more character makes of the key.
abbrev pub typed : List ℕ → SessionStatus → ℕ → List ℕ
typed key status c = if takes (length key) status c then key ++ c ∷ [] else key

zeros-suc : (n : ℕ) → 0 < n → zeros n ≡ 0 ∷ zeros (n - 1)
zeros-suc zero h = absurd (omega arith)
zeros-suc (suc n) h = ap (λ (k : ℕ). 0 ∷ zeros k) (omega arith)

-- The byte behind the key is 0.
pub padded-split :
    (key : List ℕ) → length key < secret_capacity → padded key ≡ key ++ 0 ∷ zeros (191 - length key)
padded-split key h =
    ap (λ l. key ++ l)
      (zeros-suc (secret_capacity - length key) (omega arith)
        ∙ ap (λ (k : ℕ). 0 ∷ zeros k) (omega arith))

set-padded :
    (key : List ℕ) (c : ℕ)
    → length key < 191
    → set (set (padded key) (length key) c) (length key + 1) 0 ≡ padded (key ++ c ∷ [])
set-padded key c h =
    let n = length-append key (c ∷ []) in
    let behind : zeros (191 - length key) ≡ 0 ∷ zeros (190 - length key) =
      zeros-suc (191 - length key) (omega arith) ∙ ap (λ (k : ℕ). 0 ∷ zeros k) (omega arith) in
    ap (λ l. set (set l (length key) c) (length key + 1) 0)
      (padded-split key (omega arith) ∙ ap (λ l. key ++ 0 ∷ l) behind)
    ∙ ap (λ l. set l (length key + 1) 0)
        (set-append key 0 c (0 ∷ zeros (190 - length key))
          ∙ sym (append_assoc key (c ∷ []) (0 ∷ zeros (190 - length key))))
    ∙ ap (λ (k : ℕ). set ((key ++ c ∷ []) ++ 0 ∷ zeros (190 - length key)) k 0) (omega (arith, n))
    ∙ set-append (key ++ c ∷ []) 0 0 (zeros (190 - length key))
    ∙ ap (λ (k : ℕ). (key ++ c ∷ []) ++ 0 ∷ zeros k) (omega (arith, n))
    ∙ sym (padded-split (key ++ c ∷ []) (omega (arith, n)))

set-padded_last :
    (key : List ℕ) (c : ℕ)
    → length key < 191
    → set (padded (key ++ c ∷ [])) (length key) 0 ≡ padded key
set-padded_last key c h =
    let n = length-append key (c ∷ []) in
    ap (λ l. set l (length key) 0)
      (append_assoc key (c ∷ []) (zeros (secret_capacity - length (key ++ c ∷ []))))
    ∙ set-append key c 0 (zeros (secret_capacity - length (key ++ c ∷ [])))
    ∙ ap (λ (k : ℕ). key ++ 0 ∷ zeros k) (omega (arith, n))
    ∙ sym (padded-split key (omega arith))

guard :
    (e : Bool) (c n i : ℕ)
    → i ≡ n
    → (not e || ltb c 33 || ltb 126 c || leb secret_capacity (i + 1))
      ≡ not (e && leb 33 c && leb c 126 && ltb n 191)
guard e c n i h = ground arith

takes-parts :
    (n c : ℕ) (status : SessionStatus)
    → takes n status c ≡ true
    → (is_entering status ≡ true) × (33 ≤ c) × (c ≤ 126) × (n < 191)
takes-parts n c status e = (ground arith, ground arith, ground arith, ground arith)

-- The state after a character is taken.
abbrev captured : ℕ → Session → Session
captured c s = record s {
  secret = set (set s.secret s.secret_index c) (s.secret_index + 1) 0;
  secret_index = s.secret_index + 1;
}

capture_character-cases :
    (c n : ℕ) (s : Session)
    → s.secret_index ≡ n
    → capture_character c s
      ≡ (if not (takes n s.status c) then (false, s) else (true, captured c s))
unfolding capture_character
capture_character-cases c n s h =
    ap (λ (b : Bool). if b then (false, s) else (true, captured c s))
      (guard (is_entering s.status) c n s.secret_index h)

captured-Holds :
    (c : ℕ) (key : List ℕ) (s : Session)
    → Holds key s
    → takes (length key) s.status c ≡ true
    → Holds (key ++ c ∷ []) (captured c s)
captured-Holds c key s h e =
    let (entering, low, high, room) = takes-parts (length key) c s.status e in
    record {
      buffer =
          ap₂ (λ (l : List ℕ) (i : ℕ). set (set l i c) (i + 1) 0) h.buffer h.index
          ∙ set-padded key c room;
      index = omega (arith, h.index, length-append key (c ∷ []));
      fits = omega (arith, length-append key (c ∷ []));
      printable = IsPrintable-snoc key c h.printable low high;
      secret_only_typing = λ (d : is_entering s.status ≡ false). ground (arith, d, entering);
    }

abbrev pub Captures : ℕ → List ℕ → Session → Bool × Session → Type 0
Captures c key s r = (r.0 ≡ takes (length key) s.status c) × Holds (typed key s.status c) r.1

-- A character is taken exactly while a key is being typed, when it is printable and the key has fewer
-- than 191 characters; it is then put at the end of the key, and else nothing changes.
pub capture_character_lem :
    (c : ℕ) (key : List ℕ) (s : Session) → Holds key s → Captures c key s (capture_character c s)
capture_character_lem c key s h =
    subst⁻¹ (Captures c key s) (capture_character-cases c (length key) s h.index)
      (elim (Bool-cases (takes (length key) s.status c)) [
        | inl e ↦ rw e (refl, captured-Holds c key s h e)
        | inr e ↦ rw e (refl, h)
      ])

-- A list is empty or ends with an element.
snoc-cases : (key : List ℕ) → (key ≡ []) ⊎ ((pre : List ℕ) × (c : ℕ) × (key ≡ pre ++ c ∷ []))
snoc-cases [] = inl refl
snoc-cases (k ∷ key) = elim (snoc-cases key) [
  | inl e ↦ inr ([], k, ap (λ l. k ∷ l) e)
  | inr (pre, c, e) ↦ inr (k ∷ pre, c, ap (λ l. k ∷ l) e)
]

-- The key without its last character.
abbrev pub all_but_last : List ℕ → List ℕ
all_but_last [] = []
all_but_last (k ∷ []) = []
all_but_last (k ∷ l ∷ key) = k ∷ all_but_last (l ∷ key)

all_but_last-snoc : (pre : List ℕ) (c : ℕ) → all_but_last (pre ++ c ∷ []) ≡ pre
all_but_last-snoc [] c = refl
all_but_last-snoc (p ∷ []) c = refl
all_but_last-snoc (p ∷ q ∷ pre) c = ap (λ l. p ∷ l) (all_but_last-snoc (q ∷ pre) c)

abbrev keeps_all : Session → Bool
keeps_all s = not (is_entering s.status) || (s.secret_index == 0)

abbrev shortened : Session → Session
shortened s = record s {
  secret = set s.secret (s.secret_index - 1) 0;
  secret_index = s.secret_index - 1;
}

backspace-keeps : (s : Session) → keeps_all s ≡ true → backspace s ≡ s
unfolding backspace
backspace-keeps s e = rw e refl

backspace-shortens : (s : Session) → keeps_all s ≡ false → backspace s ≡ shortened s
unfolding backspace
backspace-shortens s e = rw e refl

keeps_all-nil : (key : List ℕ) (s : Session) → Holds key s → keeps_all s ≡ true → key ≡ []
keeps_all-nil [] s h e = refl
keeps_all-nil (k ∷ key) s h e = h.secret_only_typing (ground (arith, h.index))

shortened-Holds :
    (pre : List ℕ) (c : ℕ) (s : Session)
    → Holds (pre ++ c ∷ []) s
    → keeps_all s ≡ false
    → Holds pre (shortened s)
shortened-Holds pre c s h e =
    let n = length-append pre (c ∷ []) in
    let last : s.secret_index - 1 ≡ length pre = omega (arith, h.index, n) in
    record {
      buffer =
          ap₂ (λ (l : List ℕ) (i : ℕ). set l i 0) h.buffer last
          ∙ set-padded_last pre c (omega (arith, h.fits, n));
      index = last;
      fits = omega (arith, h.fits, n);
      printable = IsPrintable-prefix pre c h.printable;
      secret_only_typing = λ (d : is_entering s.status ≡ false). ground (arith, d);
    }

-- A backspace takes the last character off the key, and changes nothing when there is none.
pub backspace_lem :
    (key : List ℕ) (s : Session) → Holds key s → Holds (all_but_last key) (backspace s)
backspace_lem key s h = elim (Bool-cases (keeps_all s)) [
  | inl e ↦ subst⁻¹ (Holds (all_but_last key)) (backspace-keeps s e) (
      subst⁻¹ (λ l. Holds l s) (ap all_but_last (keeps_all-nil key s h e))
        (subst (λ l. Holds l s) (keeps_all-nil key s h e) h))
  | inr e ↦ subst⁻¹ (Holds (all_but_last key)) (backspace-shortens s e) (elim (snoc-cases key) [
    | inl nil ↦ absurd (ground (arith, e, h.index, ap {B = ℕ} length nil))
    | inr (pre, c, f) ↦
        subst⁻¹ (λ l. Holds l (shortened s)) (ap all_but_last f ∙ all_but_last-snoc pre c)
          (shortened-Holds pre c s (subst (λ l. Holds l s) f h) e)
  ])
]
