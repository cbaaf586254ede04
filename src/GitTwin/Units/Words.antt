-- ===== src/GitTwin/Units/Words.antt =====
-- The word count of internal/gittwin/unit_mapper.go against the words themselves.
use acp_server.Base.{
  ℕ, ◌+◌, ◌≡◌, ◌==◌, ◌&&◌, not, refl, Bool, true, false, none, some, List, [], ◌∷◌, ◌++◌, arith,
  length, length-append, if◌then◌else◌, Bool-cases, inl, inr, ap, ◌∙◌,
}
use acp_server.Base.Int.{pos}
use acp_server.Sealing.{codes}
use acp_server.GitTwin.Units.{
  DiffStat, onto_line, split_lines, added, count_from, count_fields, count_added, count_lines,
  words_in_body, words_in_diff,
}

abbrev pub has_prefix : List ℕ → List ℕ → Bool
has_prefix [] line = true
has_prefix (p ∷ ps) [] = false
has_prefix (p ∷ ps) (c ∷ line) = c == p && has_prefix ps line

-- A line that begins with `+` and not with `+++`. An added line whose own text begins with `++` is
-- thereby none: the code takes it for a header.
abbrev pub is_added_line : List ℕ → Bool
is_added_line line = has_prefix (codes "+") line && not (has_prefix (codes "+++") line)

abbrev pub without_first : List ℕ → List ℕ
without_first [] = []
without_first (c ∷ line) = line

-- The lines that a diff adds, without their `+`.
abbrev pub added_lines : List (List ℕ) → List (List ℕ)
added_lines [] = []
added_lines (line ∷ lines) =
    if is_added_line line then without_first line ∷ added_lines lines else added_lines lines

added-is_added_line :
    (line : List ℕ) → added line ≡ (if is_added_line line then some (without_first line) else none)
added-is_added_line [] = refl
added-is_added_line (a ∷ []) = ground arith
added-is_added_line (a ∷ b ∷ []) = ground arith
added-is_added_line (a ∷ b ∷ c ∷ rest) = ground arith

abbrev pub non_empty : List (List ℕ) → List (List ℕ)
non_empty [] = []
non_empty ([] ∷ ws) = non_empty ws
non_empty ((r ∷ w) ∷ ws) = (r ∷ w) ∷ non_empty ws

others : List (List ℕ) → List (List ℕ)
others [] = []
others (w ∷ ws) = ws

module _ (is_word : ℕ → Bool) where
  -- The stretches between the runes that belong to no word; the words are those that are not empty.
  abbrev pub stretches : List ℕ → List (List ℕ)
  stretches [] = [] ∷ []
  stretches (r ∷ rs) = if is_word r then onto_line r (stretches rs) else [] ∷ stretches rs

  abbrev pub words : List ℕ → List (List ℕ)
  words s = non_empty (stretches s)

  onto_counts :
      (r : ℕ) (ws : List (List ℕ))
      → (length (non_empty (onto_line r ws)) ≡ 1 + length (non_empty (others ws)))
        × (others (onto_line r ws) ≡ others ws)
  unfolding others
  onto_counts r [] = (refl, refl)
  onto_counts r (w ∷ ws) = (omega arith, refl)

  -- Outside of a word the loop counts all that are ahead, inside of one all but the first.
  count_ahead :
      (n : ℕ) (s : List ℕ)
      → (count_from is_word false n s ≡ n + length (words s))
        × (count_from is_word true n s ≡ n + length (non_empty (others (stretches s))))
  unfolding count_from others
  count_ahead n [] = (omega arith, omega arith)
  count_ahead n (r ∷ rs) = elim (Bool-cases (is_word r)) [
    | inl inside ↦
        let (counts, same) = onto_counts r (stretches rs) in
        let one = count_ahead (n + 1) rs in
        let two = count_ahead n rs in
        (rw inside (omega (arith, counts, one.1)), rw (inside, same) two.1)
    | inr outside ↦ let two = count_ahead n rs in (rw outside two.0, rw outside two.0)
  ]

  body_count : (s : List ℕ) → count_fields is_word s ≡ length (words s)
  unfolding count_fields
  body_count s = omega (arith, (count_ahead 0 s).0)

  -- All words of some lines.
  abbrev pub all_words : List (List ℕ) → List (List ℕ)
  all_words [] = []
  all_words (line ∷ lines) = words line ++ all_words lines

  count_lines-words :
      (total : ℕ) (lines : List (List ℕ))
      → count_lines is_word total lines ≡ total + length (all_words (added_lines lines))
  unfolding count_lines
  count_lines-words total [] = omega arith
  count_lines-words total (line ∷ lines) =
      count_lines-words (total + count_added is_word (added line)) lines
      ∙ rw (added-is_added_line line) (elim (Bool-cases (is_added_line line)) [
        | inr past ↦ rw past (omega arith)
        | inl here ↦
            let body = without_first line in
            rw here (
              omega (
                arith,
                body_count body,
                length-append (words body) (all_words (added_lines lines)),
              ))
      ])

  body_lem :
      (body : List ℕ)
      → words_in_body is_word body ≡ length (all_words (added_lines (split_lines body)))
  unfolding split_lines
  body_lem [] = refl
  body_lem (c ∷ cs) = count_lines-words 0 (split_lines (c ∷ cs)) ∙ omega arith

  -- The word mapper gives the number of words on the lines of the diff that begin with `+` and not
  -- with `+++`, the sign left out, where a word is a stretch of word runes that no other word rune
  -- adjoins.
  pub words_in_diff-words :
      (d : DiffStat)
      → words_in_diff is_word d ≡ pos (length (all_words (added_lines (split_lines d.diff_body))))
  unfolding words_in_diff
  words_in_diff-words d = ap (λ (n : ℕ). pos n) (body_lem d.diff_body)
