-- ===== src/Ai/Task/Output.antt =====
-- What the two buffers of a task hold.
use hnmos.Prelude.{
  ℕ, zero, suc, ◌==◌, false, ◌-◌, ◌≤◌, ◌<◌, ◌≡◌, refl, sym, ◌∙◌, Option, none, some, List, [], ◌∷◌,
  arith, length, set, take, length-set,
}
use hnmos.Prelude.Buffer.{c_str, IsText, length-copy_text, c_str-copy_text}
use hnmos.Ai.Task.{
  TaskType, pending, AiTask, input_max, output_max, copy_source, prepare, set_output,
}

-- The two buffers have the sizes of the structure.
pub record IsValid (t : AiTask) : Type 0 where
  pub input_size : length t.input ≡ input_max
  pub output_size : length t.output ≡ output_max

abbrev pub IsTextOr : Option (List ℕ) → Type 0
IsTextOr none = Unit
IsTextOr (some s) = IsText s

-- The empty text for a null pointer.
abbrev pub text_or_empty : Option (List ℕ) → List ℕ
text_or_empty none = []
text_or_empty (some s) = s

c_str-set_zero : (l : List ℕ) → 0 < length l → c_str (set l 0 0) ≡ []
unfolding c_str
c_str-set_zero [] h = absurd (omega arith)
c_str-set_zero (c ∷ cs) h = refl

take-empty : (n : ℕ) → take {A = ℕ} n [] ≡ []
take-empty zero = refl
take-empty (suc n) = refl

pub c_str-copy_source :
    (dest : List ℕ) (capacity : ℕ) (s : Option (List ℕ))
    → 0 < capacity
    → capacity ≤ length dest
    → IsTextOr s
    → c_str (copy_source dest capacity s) ≡ take (capacity - 1) (text_or_empty s)
unfolding copy_source
c_str-copy_source dest capacity none h l t =
    let full : (capacity == 0) ≡ false = ground arith in
    rw full (c_str-set_zero dest (omega arith) ∙ sym (take-empty (capacity - 1)))
c_str-copy_source dest capacity (some s) h l t = c_str-copy_text dest capacity s h l t

pub length-copy_source :
    (dest : List ℕ) (capacity : ℕ) (s : Option (List ℕ))
    → length (copy_source dest capacity s) ≡ length dest
unfolding copy_source
length-copy_source dest capacity none = ground (arith, length-set dest 0 0)
length-copy_source dest capacity (some s) = length-copy_text dest capacity s

-- A task that is pending under a number, with its two texts.
pub record Prepared (id : ℕ) (kind : TaskType) (input : List ℕ) (flags : ℕ) (t : AiTask)
    : Type 0 where
  pub valid : IsValid t
  pub has_id : t.task_id ≡ id
  pub has_type : t.task_type ≡ kind
  pub has_flags : t.context_flags ≡ flags
  pub is_pending : t.status ≡ pending
  pub no_profile : t.language_profile ≡ none
  pub has_input : c_str t.input ≡ take (input_max - 1) input
  pub no_output : c_str t.output ≡ []

-- The state of a task that may be missing.
abbrev pub Present : (AiTask → Type 0) → Option AiTask → Type 0
Present P none = ⊥
Present P (some t) = P t

-- Whatever a task held, preparing it leaves a pending task with the given number, type and flags, no
-- profile, the first 159 characters of the given text (none for a null pointer) and no output.
pub prepare_lem :
    (id : ℕ) (kind : TaskType) (input : Option (List ℕ)) (flags : ℕ) (t : AiTask)
    → IsValid t
    → IsTextOr input
    → Present (Prepared id kind (text_or_empty input) flags) (prepare id kind input flags (some t))
unfolding prepare
prepare_lem id kind input flags t v text = record {
  valid = record {
    input_size = length-copy_source t.input input_max input ∙ v.input_size;
    output_size = length-set t.output 0 0 ∙ v.output_size;
  };
  has_id = refl;
  has_type = refl;
  has_flags = refl;
  is_pending = refl;
  no_profile = refl;
  has_input =
      c_str-copy_source t.input input_max input (omega arith) (omega (arith, v.input_size)) text;
  no_output = c_str-set_zero t.output (omega (arith, v.output_size));
}

-- What a new output changes of a task.
pub record Answered (output : List ℕ) (before t : AiTask) : Type 0 where
  pub valid : IsValid t
  pub has_output : c_str t.output ≡ take (output_max - 1) output
  pub rest : record t { output = before.output } ≡ before

-- Setting the output of a task leaves the first 1023 characters of the given text (none for a null
-- pointer) in its output, and changes nothing else of the task.
pub set_output_lem :
    (output : Option (List ℕ)) (t : AiTask)
    → IsValid t
    → IsTextOr output
    → Present (Answered (text_or_empty output) t) (set_output output (some t))
unfolding set_output
set_output_lem output t v text = record {
  valid = record {
    input_size = v.input_size;
    output_size = length-copy_source t.output output_max output ∙ v.output_size;
  };
  has_output =
      c_str-copy_source t.output output_max output (omega arith) (omega (arith, v.output_size))
        text;
  rest = refl;
}
