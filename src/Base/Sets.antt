-- ===== src/Base/Sets.antt =====
-- Finite sets of numbers as lists: Python's `in`, `discard` and `min`.
use Prim.Native.Nat.{ℕ, ◌≤◌, ◌<◌, min}
use mathlib.Core.Path.{◌≡◌, refl}
use mathlib.Core.Bool.{Bool, true, false, not, ◌&&◌, ◌||◌}
use mathlib.Core.List.{List, [], ◌∷◌}
use hammertime.Base.Tests.{◌==◌, if◌then◌else◌}
use hammertime.Base.Lists.{length}
use native.Mathlib.Omega.{arith}

abbrev pub mem : ℕ → List ℕ → Bool
mem v [] = false
mem v (u ∷ us) = u == v || mem v us

abbrev pub without : ℕ → List ℕ → List ℕ
without v [] = []
without v (u ∷ us) = let rest = without v us in if u == v then rest else u ∷ rest

abbrev pub smallest : ℕ → List ℕ → ℕ
smallest v [] = v
smallest v (u ∷ us) = smallest (min v u) us

pub mem-without : (t v : ℕ) (us : List ℕ) → mem t (without v us) ≡ (mem t us && not (t == v))
mem-without t v [] = refl
mem-without t v (u ∷ us) = ground (arith, mem-without t v us)

pub length-without-le : (v : ℕ) (us : List ℕ) → length (without v us) ≤ length us
length-without-le v [] = omega arith
length-without-le v (u ∷ us) = ground (arith, length-without-le v us)

pub length-without-lt : (v : ℕ) (us : List ℕ) → mem v us ≡ true → length (without v us) < length us
length-without-lt v [] h = cc
length-without-lt v (u ∷ us) h = ground (arith, length-without-le v us, length-without-lt v us)

-- What `min` returns is a member.
mem-smallest_or : (v : ℕ) (us : List ℕ) → (mem (smallest v us) us || v == smallest v us) ≡ true
mem-smallest_or v [] = ground arith
mem-smallest_or v (u ∷ us) = ground (arith, mem-smallest_or (min v u) us)

pub mem-smallest : (v : ℕ) (us : List ℕ) → mem (smallest v us) (v ∷ us) ≡ true
mem-smallest v us = ground (arith, mem-smallest_or v us)
