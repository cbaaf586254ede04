-- ===== src/GitTwin/Units.antt =====
-- internal/gittwin/unit_mapper.go: how many units a diff is worth.
use acp_server.Base.{
  ℕ, String, ◌+◌, Bool, true, false, not, ◌&&◌, ◌||◌, Option, none, some, List, [], ◌∷◌, ◌==◌,
  str_eq, if◌then◌else◌,
}
use acp_server.Base.Int.{ℤ, pos, ◌-ℤ◌, ltb_ℤ}
use acp_server.Store.{Error, Value, Result, ok, err}
pub mod Words

pub record DiffStat : Type 0 where
  pub lines_added : ℤ
  pub lines_removed : ℤ
  pub files_changed : ℤ
  pub diff_body : List ℕ

-- strings.Split at the newlines.
abbrev pub onto_line : ℕ → List (List ℕ) → List (List ℕ)
onto_line c [] = (c ∷ []) ∷ []
onto_line c (line ∷ lines) = (c ∷ line) ∷ lines

unfoldable pub split_lines : List ℕ → List (List ℕ)
split_lines [] = [] ∷ []
split_lines (c ∷ cs) = if c == b'\n' then [] ∷ split_lines cs else onto_line c (split_lines cs)

-- What follows the `+` of an added line; a header `+++` is none.
abbrev pub added : List ℕ → Option (List ℕ)
added [] = none
added (a ∷ []) = if a == b'+' then some [] else none
added (a ∷ b ∷ []) = if a == b'+' then some (b ∷ []) else none
added (a ∷ b ∷ c ∷ rest) =
    if a == b'+' then (if b == b'+' && c == b'+' then none else some (b ∷ c ∷ rest)) else none

-- unicode.IsLetter or unicode.IsDigit is the parameter `is_word`.
module _ (is_word : ℕ → Bool) where
  -- The loop of countFields, with its `inWord`.
  unfoldable pub count_from : Bool → ℕ → List ℕ → ℕ
  count_from in_word n [] = n
  count_from in_word n (r ∷ rs) =
      count_from (is_word r) (if is_word r && not in_word then n + 1 else n) rs

  unfoldable pub count_fields : List ℕ → ℕ
  count_fields s = count_from false 0 s

  abbrev pub count_added : Option (List ℕ) → ℕ
  count_added none = 0
  count_added (some body) = count_fields body

  unfoldable pub count_lines : ℕ → List (List ℕ) → ℕ
  count_lines total [] = total
  count_lines total (line ∷ lines) = count_lines (total + count_added (added line)) lines

  abbrev pub words_in_body : List ℕ → ℕ
  words_in_body [] = 0
  words_in_body (c ∷ cs) = count_lines 0 (split_lines (c ∷ cs))

  unfoldable pub words_in_diff : DiffStat → ℤ
  words_in_diff d = pos (words_in_body d.diff_body)

  unfoldable pub lines_added : DiffStat → ℤ
  lines_added d = d.lines_added

  unfoldable pub lines_added_minus_removed : DiffStat → ℤ
  lines_added_minus_removed d =
      let n = d.lines_added -ℤ d.lines_removed in if ltb_ℤ n (pos 0) then pos 0 else n

  -- Resolve, on the map BuiltinMappers
  unfoldable pub resolve : String → Result (DiffStat → ℤ)
  resolve mapper =
      if str_eq mapper ""
      then err (Error.errorf "unit_mapper: name required" [])
      else (if str_eq mapper "lines_added"
          then ok lines_added
          else (if str_eq mapper "lines_added_minus_removed"
              then ok lines_added_minus_removed
              else (if str_eq mapper "words_in_diff"
                  then ok words_in_diff
                  else err (
                      Error.errorf
                        "unit_mapper: unknown mapper %q (built-ins: lines_added, lines_added_minus_removed, words_in_diff)"
                        (Value.name mapper ∷ [])))))

-- DefaultMapperForSpace
unfoldable pub default_mapper_for_space : String → Option String
default_mapper_for_space space =
    if str_eq space "book"
    then some "words_in_diff"
    else (if str_eq space "code"
        then some "lines_added_minus_removed"
        else (if str_eq space "research" then some "lines_added" else none))
