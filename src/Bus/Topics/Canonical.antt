-- ===== src/Bus/Topics/Canonical.antt =====
-- bus/topics.py: which subjects are those of partitions.
use Prim.Native.Char.{Char}
use Prim.Native.String.{String, [], ◌∷◌, ◌++◌}
use text.Mathlib.TextLemmas.{nil-append, cons-append}
use hammertime.Base.{
  ℕ, ◌≡◌, ◌↔◌, refl, sym, ap, ◌∙◌, Bool, true, false, not, ◌||◌, Option, none, some, ok, Bool-cases,
  Option-cases, inl, inr, arith,
}
use hammertime.Base.Int.{pos}
use hammertime.Base.Dict.{string_key, same_refl}
use hammertime.Bus.Topics.Subjects.{
  is_dot, rpartition, subject_of, canonical, subject, partition_of,
}

abbrev pub has_dot : String → Bool
has_dot [] = false
has_dot (c ∷ s) = is_dot c || has_dot s

-- What is relied on of Python's texts of numbers: no dot, digits only, and they are read back.
pub record Laws (decimal : ℕ → String) (is_digits : String → Bool) (int_of : String → Option ℕ)
    : Type 0 where
  pub no_dot : (n : ℕ) → has_dot (decimal n) ≡ false
  pub digits : (n : ℕ) → is_digits (decimal n) ≡ true
  pub read : (n : ℕ) → int_of (decimal n) ≡ some n

rpartition-none : (token : String) → has_dot token ≡ false → rpartition token ≡ none
unfolding rpartition
rpartition-none [] h = refl
rpartition-none (c ∷ s) h = elim (Bool-cases (is_dot c)) [
  | inl d ↦ ground (arith, d, h)
  | inr d ↦ rw (rpartition-none s (ground (arith, d, h)), d) refl
]

rpartition_last :
    (token : String) → has_dot token ≡ false → rpartition ("." ∷ token) ≡ some ([], token)
unfolding rpartition
rpartition_last token h = rw (rpartition, rpartition-none token h) refl

rpartition_cons :
    (c : Char) (s before token : String)
    → rpartition s ≡ some (before, token)
    → rpartition (c ∷ s) ≡ some (c ∷ before, token)
unfolding rpartition
rpartition_cons c s before token e = rw (rpartition, e) refl

dot_append : (token : String) → "." ++ token ≡ "." ∷ token
dot_append token = cons-append "." [] token ∙ ap (λ t. "." ∷ t) (nil-append token)

rpartition-append :
    (name token : String)
    → has_dot token ≡ false
    → rpartition (name ++ "." ++ token) ≡ some (name, token)
rpartition-append [] token h =
    ap rpartition (nil-append ("." ++ token) ∙ dot_append token) ∙ rpartition_last token h
rpartition-append (c ∷ s) token h =
    ap rpartition (cons-append c s ("." ++ token))
    ∙ rpartition_cons c (s ++ "." ++ token) s token (rpartition-append s token h)

some_eq : (q p : ℕ) → some q ≡ some p → q ≡ p
some_eq q p e = ground (arith, e)

module _ (decimal : ℕ → String) (is_digits : String → Bool) (int_of : String → Option ℕ)
    (laws : Laws decimal is_digits int_of) where
  canonical_text :
      (name text : String) (o : Option ℕ) (p : ℕ)
      → canonical decimal is_digits int_of name text o ≡ some p
      → subject_of decimal is_digits int_of name p ≡ text
  canonical_text name text none p e = ground (arith, e)
  canonical_text name text (some q) p e =
      elim (Bool-cases (string_key.same (subject_of decimal is_digits int_of name q) text)) [
        | inr s ↦ ground (arith, s, e)
        | inl s ↦
            ap (subject_of decimal is_digits int_of name)
              (sym (some_eq q p (rw (canonical, s) at e)))
            ∙ (string_key.same_iff (subject_of decimal is_digits int_of name q) text).0 s
      ]

  read_back :
      (name : String) (p : ℕ)
      → partition_of decimal is_digits int_of name (subject_of decimal is_digits int_of name p)
        ≡ some p
  unfolding partition_of
  read_back name p =
      rw
        (
          partition_of,
          rpartition-append name (decimal p) (laws.no_dot p),
          same_refl {K = String} name,
          laws.digits p,
          laws.read p,
          same_refl {K = String} (name ++ "." ++ decimal p),
        )
        refl

  only_canonical :
      (name text : String) (p : ℕ)
      → partition_of decimal is_digits int_of name text ≡ some p
      → subject_of decimal is_digits int_of name p ≡ text
  unfolding partition_of
  only_canonical name text p e = elim (Option-cases (rpartition text)) [
    | inl q ↦ ground (arith, q, e)
    | inr ((prefix, token), q) ↦
        elim (Bool-cases (not (string_key.same prefix name) || not (is_digits token))) [
          | inl b ↦ ground (arith, q, b, e)
          | inr b ↦ canonical_text name text (int_of token) p (rw (partition_of, q, b) at e)
        ]
  ]

  ok_eq : (s t : String) → ok s ≡ ok t → s ≡ t
  ok_eq s t e = ground (arith, e)

  -- A subject names a partition exactly if it is the one that `subject` writes for it.
  pub partition_of-subject :
      (name text : String) (p : ℕ)
      → (partition_of decimal is_digits int_of name text ≡ some p)
        ↔ (subject decimal is_digits int_of name (pos p) ≡ ok text)
  unfolding subject
  partition_of-subject name text p = (
    λ e. ap ok (only_canonical name text p e),
    λ e.
        ap (partition_of decimal is_digits int_of name)
          (sym (ok_eq (subject_of decimal is_digits int_of name p) text e))
        ∙ read_back name p,
  )
