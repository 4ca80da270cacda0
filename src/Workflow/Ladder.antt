-- ===== src/Workflow/Ladder.antt =====
-- The parts of src/workflow/compile.ts and src/workflow/types.ts that stand by themselves: the status
-- ladder of a workflow, the names of tools that it may not take, and the names of its fragments.
use Prim.Native.Nat.{◌%◌}
use Prim.Native.String.{◌++◌ as str_append}
use decompi.Base.{
  ℕ, zero, suc, ◌/◌, Bool, List, [], ◌∷◌, Option, none, some, String, ◌==◌, or_else, if◌then◌else◌,
  ltb,
}
use decompi.Pipeline.Engine.{has_id}

pub record Ladder : Type 0 where
  pub statuses : List String
  pub done_statuses : List String
  pub completion_status : String

unfoldable pub last_of : List String → Option String
last_of [] = none
last_of (s ∷ []) = some s
last_of (s ∷ t ∷ ss) = last_of (t ∷ ss)

unfoldable pub resolve_ladder : Option (List String) → Option (List String) → Option String → Ladder
unfolding last_of
resolve_ladder statuses done_statuses completion_status =
    let ladder = or_else statuses ("DONE" ∷ []) in
    let last = or_else (last_of ladder) "DONE" in
    record {
      statuses = ladder;
      done_statuses = or_else done_statuses (last ∷ []);
      completion_status = or_else completion_status last;
    }

abbrev pub reserved_core_tools : List String
reserved_core_tools = "finish" ∷ "select" ∷ "status" ∷ "lint" ∷ []

unfoldable pub is_reserved_tool_name : String → Bool
unfolding has_id
is_reserved_tool_name name = has_id name reserved_core_tools

-- The first tool that a workflow may not have.
unfoldable pub reserved_tool : List String → Option String
unfolding is_reserved_tool_name
reserved_tool [] = none
reserved_tool (name ∷ names) =
    let rest = reserved_tool names in if is_reserved_tool_name name then some name else rest

-- The digits of a number, as a text.
abbrev digit : ℕ → String
digit d =
    if ltb d 5
    then if d == 0
      then "0"
      else if d == 1
      then "1"
      else if d == 2
      then "2"
      else if d == 3
      then "3"
      else "4"
    else if d == 5
    then "5"
    else if d == 6
    then "6"
    else if d == 7
    then "7"
    else if d == 8
    then "8"
    else "9"

decimal_loop : ℕ → ℕ → String → String
decimal_loop zero n text = text
decimal_loop (suc fuel) n text =
    let text' = str_append (digit (n % 10)) text in
    let rest = decimal_loop fuel (n / 10) text' in if ltb n 10 then text' else rest

unfoldable pub decimal : ℕ → String
unfolding decimal_loop
decimal n = decimal_loop (suc n) n ""

unfoldable pub fragment_id : String → ℕ → String
unfolding decimal
fragment_id workflow_id index = str_append workflow_id (str_append "#fragment" (decimal index))
