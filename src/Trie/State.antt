-- ===== src/Trie/State.antt =====
-- trie/state.py: what a reader of the trie service may see. The pairs of a trie and its records are
-- of any type `Pair`, since this class does not look into them; its own data are the log position, the
-- newest timestamp and the configuration in force. An offset may be negative, and is then refused.
pub mod Position
use Prim.Native.Nat.{max}
use hammertime.Base.{
  ℕ, suc, Bool, true, false, not, Option, none, some, List, [], ◌∷◌, Result, ok, err, value_error,
  key_error, raise_if, ◌>>◌, ltb, leb, if◌then◌else◌,
}
use hammertime.Base.Int.{ℤ, is_negative, pos_part}
use hammertime.Core.Address.{AddressFamily, ipv4, ipv6, is_family}
use hammertime.Core.Config.{DetectionConfig}
use hammertime.Core.Events.{Timestamp}

pub record TrieState (Pair : Type 0) : Type 0 where
  pub families : List (AddressFamily × Pair)
  pub config : DetectionConfig
  pub position : Option ℕ
  pub as_of : Option ℕ

abbrev pub has_family : AddressFamily → List AddressFamily → Bool
has_family family [] = false
has_family family (f ∷ families) = if is_family f family then true else has_family family families

-- `offset <= self._position`
abbrev pub is_behind : Option ℕ → ℕ → Bool
is_behind none offset = false
is_behind (some position) offset = leb offset position

-- `max`, where `None` is before every time.
abbrev pub newer : Option ℕ → ℕ → Option ℕ
newer none t = some t
newer (some u) t = if ltb u t then some t else some u

module _ {Pair : Type 0} where
  -- The pair of each family served, the lower family first.
  unfoldable pub served : (AddressFamily → Pair) → List AddressFamily → List (AddressFamily × Pair)
  served pair families =
      let v6 = if has_family ipv6 families then (ipv6, pair ipv6) ∷ [] else [] in
      if has_family ipv4 families then (ipv4, pair ipv4) ∷ v6 else v6

  unfoldable pub new :
      (AddressFamily → Pair) → List AddressFamily → DetectionConfig → Result (TrieState Pair)
  new pair [] config = err value_error
  new pair (f ∷ families) config = ok (record {
    families = served pair (f ∷ families);
    config = config;
    position = none;
    as_of = none;
  })

  abbrev pub pair_of : AddressFamily → List (AddressFamily × Pair) → Option Pair
  pair_of family [] = none
  pair_of family ((f, pair) ∷ pairs) =
      if is_family f family then some pair else pair_of family pairs

  unfoldable pub serves : TrieState Pair → AddressFamily → Bool
  serves s family = elim (pair_of family s.families) [ none ↦ false | some pair ↦ true ]

  unfoldable pub of : TrieState Pair → AddressFamily → Result Pair
  of s family = elim (pair_of family s.families) [ none ↦ err key_error | some pair ↦ ok pair ]

  unfoldable pub event_sequence : TrieState Pair → ℕ
  event_sequence s = elim s.position [ none ↦ 0 | some offset ↦ suc offset ]

  unfoldable pub check_offset : TrieState Pair → ℤ → Result (Unit {0})
  check_offset s offset =
      raise_if (if is_negative offset then true else is_behind s.position (pos_part offset))
        value_error

  unfoldable pub note_handled : TrieState Pair → ℤ → Result (TrieState Pair)
  note_handled s offset = do
    check_offset s offset
    ok (record s { position = some (pos_part offset) })

  unfoldable pub note_applied : TrieState Pair → ℤ → Timestamp → Result (TrieState Pair)
  note_applied s offset timestamp = do
    check_offset s offset
    raise_if (not timestamp.is_aware) value_error
    ok (record s { position = some (pos_part offset); as_of = newer s.as_of timestamp.epoch })

  unfoldable pub note_passed : TrieState Pair → ℤ → Result (TrieState Pair)
  note_passed s offset = do
    check_offset s offset
    ok (record s { position = some (pos_part offset) })

  unfoldable pub adopt_config : TrieState Pair → DetectionConfig → TrieState Pair
  adopt_config s config = record s { config = config }
