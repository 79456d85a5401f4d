-- ===== src/Bus/Topics/Subjects.antt =====
-- bus/topics.py: the subjects of a topic. The decimal text of a number, `isdigit` and `int` of a text are
-- Python's and are parameters.
use Prim.Native.Char.{Char, code}
use Prim.Native.String.{String, [], ◌∷◌, ◌++◌}
use hammertime.Base.{
  ℕ, Bool, not, ◌||◌, Option, none, some, Result, ok, value_error, raise_if, ◌>>◌, ◌==◌,
  if◌then◌else◌,
}
use hammertime.Base.Int.{ℤ, is_negative, pos_part}
use hammertime.Base.Dict.{string_key}

-- `text.rpartition(".")`: what stands before and behind the last dot, if there is one
abbrev pub is_dot : Char → Bool
is_dot c = code c == 46

unfoldable pub rpartition : String → Option (String × String)
rpartition [] = none
rpartition (c ∷ s) =
    let rest = rpartition s in
    elim rest [
      | some (before, token) ↦ some (c ∷ before, token)
      | none ↦ if is_dot c then some ([], s) else none
    ]

module _ (decimal : ℕ → String) (is_digits : String → Bool) (int_of : String → Option ℕ) where
  abbrev pub subject_of : String → ℕ → String
  subject_of name partition = name ++ "." ++ decimal partition

  unfoldable pub subject : String → ℤ → Result String
  subject name partition = do
    raise_if (is_negative partition) value_error
    ok (subject_of name (pos_part partition))

  -- A token that is not the canonical text of its number is none of this topic.
  abbrev pub canonical : String → String → Option ℕ → Option ℕ
  canonical name text none = none
  canonical name text (some partition) =
      if string_key.same (subject_of name partition) text then some partition else none

  unfoldable pub partition_of : String → String → Option ℕ
  partition_of name text = elim (rpartition text) [
    | none ↦ none
    | some (prefix, token) ↦
        if not (string_key.same prefix name) || not (is_digits token)
        then none
        else canonical name text (int_of token)
  ]
