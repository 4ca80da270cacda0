-- ===== src/Target/Claim/Owner.antt =====
-- The owner "<run_id>:<worker_seq>" of src/target/claim.ts, as a text of characters.
use Prim.Native.Char.{Char, code}
use decompi.Base.{
  ℕ, ◌+◌, ◌-◌, ◌*◌, Bool, true, false, ◌&&◌, Option, none, some, String, if◌then◌else◌, leb, ◌==◌,
}

is_digit : Char → Bool
is_digit c = leb b'0' (code c) && leb (code c) b'9'

-- `\d*$`
digits_only : String → Bool
unfolding is_digit
digits_only String.[] = true
digits_only (String.◌∷◌ c s) = is_digit c && digits_only s

-- `\d+$`, the test of `parseOwner`
pub all_digits : String → Bool
unfolding digits_only
all_digits String.[] = false
all_digits (String.◌∷◌ c s) = is_digit c && digits_only s

-- `Number` of a text of digits.
number_from : ℕ → String → ℕ
number_from n String.[] = n
number_from n (String.◌∷◌ c s) = number_from (10 * n + (code c - b'0')) s

-- The parts before and behind the last colon, by `lastIndexOf(":")`.
split_last : String → Option (String × String)
split_last String.[] = none
split_last (String.◌∷◌ c s) = elim (split_last s) [
  | some (before, after) ↦ some (String.◌∷◌ c before, after)
  | none ↦ if code c == b':' then some (String.[], s) else none
]

-- The run id and the worker's number, `null` as `none`.
unfoldable pub parse_owner : String → Option String × Option ℕ
unfolding split_last all_digits number_from
parse_owner owner = elim (split_last owner) [
  | none ↦ (some owner, none)
  | some (run, seq) ↦ (some run, if all_digits seq then some (number_from 0 seq) else none)
]

-- `OWNER_PATTERN`, `/^[^:]+:\d+$/`: `seen` tells whether the run id has a character yet.
matches_from : Bool → String → Bool
unfolding all_digits
matches_from seen String.[] = false
matches_from seen (String.◌∷◌ c s) =
    let rest = matches_from true s in if code c == b':' then seen && all_digits s else rest

unfoldable pub owner_pattern : String → Bool
unfolding matches_from
owner_pattern = matches_from false
