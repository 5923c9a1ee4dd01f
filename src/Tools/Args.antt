-- ===== src/Tools/Args.antt =====
-- Argument validation that the tool families share. Code: mcp_governance_gateway/tools/args.py.
pub mod Bounds
mod Tests
use Prim.Native.String.{count}
use mcp_governance_gateway.Base.{
  ℕ, ◌^◌, String, ◌<>◌, Bool, true, false, ◌&&◌, ◌||◌, Option, none, some, List, [], ◌∷◌, ltb,
  length, if◌then◌else◌,
}
use mcp_governance_gateway.Base.Int.{ℤ, pos, leb_ℤ, ltb_ℤ}
use mcp_governance_gateway.Base.Text.{is_empty, strip}
use mcp_governance_gateway.Errors.{value_error, Result, ok, err, ◌>>=◌}
use mcp_governance_gateway.Base.Dict.{Dict, put}
use mcp_governance_gateway.Base.Eq.{string_eq}
use mcp_governance_gateway.Value.{
  Value, null, bool, int, float, str, arr, Args, get_value, Float, fraction, nan, infinity,
  neg_infinity, show_ℤ, items,
}

unfoldable pub required_text : Args → String → ℕ → Result String
unfolding get_value strip
required_text arguments key max_len = elim (get_value arguments key) [
  | str value ↦
      if is_empty (strip value)
      then err (value_error ("'" <> key <> "' must be a non-empty string"))
      else if ltb max_len (count value)
      then err (value_error ("'" <> key <> "' is too long"))
      else ok (strip value)
  | _ ↦ err (value_error ("'" <> key <> "' must be a non-empty string"))
]

-- `stripped or None`
unfoldable pub nonempty : String → Option String
nonempty s = if is_empty s then none else some s

unfoldable pub optional_text : Args → String → ℕ → Result (Option String)
unfolding get_value strip nonempty
optional_text arguments key max_len = elim (get_value arguments key) [
  | null ↦ ok none
  | str value ↦
      if ltb max_len (count value)
      then err (value_error ("'" <> key <> "' is too long"))
      else ok (nonempty (strip value))
  | _ ↦ err (value_error ("'" <> key <> "' must be a string"))
]

-- int(value) of what `isinstance(value, int)` accepts: a `bool` is an `int` too.
unfoldable pub as_int : Value → Option ℤ
as_int (bool true) = some (pos 1)
as_int (bool false) = some (pos 0)
as_int (int n) = some n
as_int _ = none

-- An `int` that is no `bool`.
unfoldable pub plain_int : Value → Option ℤ
plain_int (int n) = some n
plain_int _ = none

abbrev pub is_null : Value → Bool
is_null null = true
is_null _ = false

unfoldable pub limit : Value → ℤ → Result ℤ
unfolding as_int
limit value default = if is_null value then ok default else elim (as_int value) [
  | none ↦ err (value_error "'limit' must be an integer")
  | some n ↦
      if ltb_ℤ n (pos 1) || ltb_ℤ (pos 50) n
      then err (value_error "'limit' must be between 1 and 50")
      else ok n
]

unfoldable pub offset : Value → Result ℤ
unfolding plain_int
offset value = if is_null value then ok (pos 0) else elim (plain_int value) [
  | none ↦ err (value_error "'offset' must be an integer")
  | some n ↦ if ltb_ℤ n (pos 0) then err (value_error "'offset' must be >= 0") else ok n
]

unfoldable pub optional_int : Args → String → ℤ → ℤ → Result (Option ℤ)
unfolding get_value plain_int show_ℤ
optional_int arguments key minimum maximum =
    let value = get_value arguments key in
    if is_null value then ok none else elim (plain_int value) [
      | none ↦ err (value_error ("'" <> key <> "' must be an integer"))
      | some n ↦
          if ltb_ℤ n minimum || ltb_ℤ maximum n
          then err (
              value_error
                ("'" <> key <> "' must be between " <> show_ℤ minimum <> " and " <> show_ℤ maximum))
          else ok (some n)
    ]

-- 0 <= value <= 1
unfoldable pub is_share : Float → Bool
is_share (fraction m e) = leb_ℤ (pos 0) m && leb_ℤ m (pos (2 ^ e))
is_share nan = false
is_share infinity = false
is_share neg_infinity = false

-- float(value) of a number that is no `bool`.
unfoldable pub as_float : Value → Option Float
as_float (int n) = some (fraction n 0)
as_float (float x) = some x
as_float _ = none

-- The default 0.8 is the double nearest to it.
abbrev pub default_confidence : Float
default_confidence = fraction (pos 3_602_879_701_896_397) 52

unfoldable pub confidence : Value → Result Float
unfolding as_float is_share
confidence value = if is_null value then ok default_confidence else elim (as_float value) [
  | none ↦ err (value_error "'confidence' must be a number between 0 and 1")
  | some x ↦ if is_share x then ok x else err (value_error "'confidence' must be between 0 and 1")
]

-- The items, if each is a text.
unfoldable pub texts : List Value → Option (List String)
texts [] = some []
texts (str s ∷ vs) = elim (texts vs) [ none ↦ none | some ss ↦ some (s ∷ ss) ]
texts (_ ∷ vs) = none

-- [item.strip() for item in value if item.strip()]
unfoldable pub stripped : List String → List String
unfolding strip
stripped [] = []
stripped (s ∷ ss) = let rest = stripped ss in if is_empty (strip s) then rest else strip s ∷ rest

unfoldable pub list_items : Value → Option (List Value)
unfolding items
list_items (arr vs) = some (items vs)
list_items _ = none

unfoldable pub text_list : Value → Option (List String)
unfolding list_items texts
text_list value = elim (list_items value) [ none ↦ none | some vs ↦ texts vs ]

unfoldable pub tags : Value → Result (List String)
unfolding text_list stripped
tags value = elim (text_list value) [
  | none ↦ err (value_error "'tags' must be a list of strings")
  | some ss ↦
      if ltb 20 (length ss)
      then err (value_error "'tags' must contain at most 20 items")
      else ok (stripped ss)
]

-- str(value) of an `int`; that of a `bool` is its name.
unfoldable pub ref_text : Value → Option String
unfolding show_ℤ
ref_text (bool true) = some "True"
ref_text (bool false) = some "False"
ref_text (int n) = some (show_ℤ n)
ref_text (str s) = some s
ref_text _ = none

unfoldable pub required_issue_ref : Args → String → Result String
unfolding get_value ref_text strip
required_issue_ref arguments key =
    let refusal = err (value_error ("'" <> key <> "' must be a non-empty string or integer")) in
    elim (ref_text (get_value arguments key)) [
      | none ↦ refusal
      | some s ↦ if is_empty (strip s) then refusal else ok (strip s)
    ]

unfoldable pub required_change_ref : Args → Result ℤ
unfolding get_value plain_int
required_change_ref arguments =
    let refusal : Result ℤ =
      err (value_error "'change' must be a positive integer (the proposal number)") in
    elim (plain_int (get_value arguments "change")) [
      | none ↦ refusal
      | some n ↦ if leb_ℤ n (pos 0) then refusal else ok n
    ]

-- `if value is not None: planning[key] = value`
abbrev pub with_text : String → Option String → Dict String String → Dict String String
with_text key none d = d
with_text key (some s) d = put key s d

unfoldable pub parent_issue : Args → Result (Option String)
unfolding get_value required_issue_ref
parent_issue arguments =
    if is_null (get_value arguments "parentIssue")
    then ok none
    else do parent ← required_issue_ref arguments "parentIssue"; ok (some parent)

-- Every value of the planning dict is a text.
unfoldable pub planning_fields : Args → Result (Dict String String)
unfolding optional_text parent_issue put
planning_fields arguments = do
  start_date ← optional_text arguments "startDate" 10
  due_date ← optional_text arguments "dueDate" 10
  priority ← optional_text arguments "priority" 60
  parent ← parent_issue arguments
  category ← optional_text arguments "category" 80
  let dates = with_text "dueDate" due_date (with_text "startDate" start_date [])
  let ranked = with_text "parentIssue" parent (with_text "priority" priority dates)
  ok (with_text "category" category ranked)

unfoldable pub planning_texts : Dict String String → List String
planning_texts [] = []
planning_texts ((key, s) ∷ d) = s ∷ planning_texts d
