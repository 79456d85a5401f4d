-- ===== src/Bus/Tests/Topics.antt =====
-- A run of bus/topics.py at a concrete subject. The text of a number is as long as the number.
use Prim.Native.Char.{nul}
use Prim.Native.String.{String, [], ◌∷◌}
use hammertime.Base.{ℕ, zero, suc, ◌≡◌, ◌↔◌, refl, ap, Bool, true, false, Option, some, ok}
use hammertime.Base.Int.{pos}
use hammertime.Bus.Topics.Subjects.{subject, partition_of}
use hammertime.Bus.Topics.Canonical.{has_dot, Laws, partition_of-subject}

abbrev unary : ℕ → String
unary zero = []
unary (suc n) = nul ∷ unary n

abbrev number_of : String → ℕ
number_of [] = zero
number_of (c ∷ s) = suc (number_of s)

abbrev any : String → Bool
any s = true

abbrev read : String → Option ℕ
read s = some (number_of s)

no_dot : (n : ℕ) → has_dot (unary n) ≡ false
no_dot zero = refl
no_dot (suc n) = no_dot n

number_of-unary : (n : ℕ) → number_of (unary n) ≡ n
number_of-unary zero = refl
number_of-unary (suc n) = ap suc (number_of-unary n)

laws : Laws unary any read
laws = record { no_dot = no_dot; digits = λ n. refl; read = λ n. ap some (number_of-unary n) }

partition_of-subject_example :
    (partition_of unary any read "hot" "hot.\0" ≡ some 1)
    ↔ (subject unary any read "hot" (pos 1) ≡ ok "hot.\0")
partition_of-subject_example = partition_of-subject unary any read laws "hot" "hot.\0" 1
