-- ===== src/Expression/Scan.antt =====
-- The four functions. `none` stands for the position -1.
use moohoorama.Base.{
  ℕ, zero, suc, ◌+◌, Bool, Option, none, some, List, [], ◌∷◌, drop, length, get_or, ℤ, pos, negsuc,
  ◌==◌, is_some, if◌then◌else◌,
}
use moohoorama.Text.{Text}
use moohoorama.Cleanse.Lines.{CleansedLines}

abbrev pub succ_ℤ : ℤ → ℤ
succ_ℤ (pos n) = pos (suc n)
succ_ℤ (negsuc zero) = pos 0
succ_ℤ (negsuc (suc n)) = negsuc n

abbrev pub pred_ℤ : ℤ → ℤ
pred_ℤ (pos zero) = negsuc 0
pred_ℤ (pos (suc n)) = pos n
pred_ℤ (negsuc n) = negsuc (suc n)

abbrev pub is_zero : ℤ → Bool
is_zero (pos n) = n == 0
is_zero (negsuc n) = Bool.false

-- The loop from position `i`, over the rest of the line.
unfoldable pub scan_end : ℕ → ℤ → ℕ → ℕ → Text → Option ℕ × ℤ
scan_end i depth startchar endchar [] = (none, depth)
scan_end i depth startchar endchar (c ∷ rest) =
    let depth' =
      if c == startchar then succ_ℤ depth else if c == endchar then pred_ℤ depth else depth in
    let later = scan_end (suc i) depth' startchar endchar rest in
    if c == startchar
    then later
    else if c == endchar
    then (if is_zero depth' then (some (i + 1), pos 0) else later)
    else later

-- `FindEndOfExpressionInLine(line, startpos, depth, startchar, endchar)`
unfoldable pub find_end_of_expression_in_line : Text → ℕ → ℤ → ℕ → ℕ → Option ℕ × ℤ
unfolding scan_end
find_end_of_expression_in_line line startpos depth startchar endchar =
    scan_end startpos depth startchar endchar (drop startpos line)

-- The tuple (line, linenum, pos) of `CloseExpression` and `ReverseCloseExpression`.
pub record Position : Type 0 where
  pub line : Text
  pub linenum : ℕ
  pub pos_in_line : Option ℕ

abbrev pub closing : ℕ → Option ℕ
closing c =
    if c == b'('
    then some b')'
    else if c == b'['
    then some b']'
    else if c == b'{'
    then some b'}'
    else if c == b'<'
    then some b'>'
    else none

-- `while linenum < clean_lines.NumLines() - 1`: over the lines behind `linenum`
unfoldable pub close_forward : Text → ℕ → ℕ → ℤ → ℕ → ℕ → List Text → Position
unfolding find_end_of_expression_in_line
close_forward line linenum num_lines num_open startchar endchar [] = record {
  line = line;
  linenum = num_lines;
  pos_in_line = none;
}
close_forward line linenum num_lines num_open startchar endchar (next ∷ lines) =
    let r = find_end_of_expression_in_line next 0 num_open startchar endchar in
    let later = close_forward next (suc linenum) num_lines r.1 startchar endchar lines in
    if is_some r.0 then record { line = next; linenum = suc linenum; pos_in_line = r.0 } else later

unfoldable pub close_with : CleansedLines → ℕ → ℕ → ℕ → ℕ → Position
unfolding close_forward
close_with clean_lines linenum p startchar endchar =
    let line = get_or clean_lines.elided linenum [] in
    let r = find_end_of_expression_in_line line p (pos 0) startchar endchar in
    if is_some r.0
    then record { line = line; linenum = linenum; pos_in_line = r.0 }
    else close_forward line linenum clean_lines.num_lines r.1 startchar endchar
        (drop (suc linenum) clean_lines.elided)

-- `CloseExpression(clean_lines, linenum, pos)`, for a `pos` on the line
unfoldable pub close_expression : CleansedLines → ℕ → ℕ → Position
unfolding close_with
close_expression clean_lines linenum p =
    let line = get_or clean_lines.elided linenum [] in
    elim (closing (get_or line p 0)) [
      | none ↦ record { line = line; linenum = clean_lines.num_lines; pos_in_line = none }
      | some endchar ↦ close_with clean_lines linenum p (get_or line p 0) endchar
    ]

-- `FindStartOfExpressionInLine(line, endpos, depth, startchar, endchar)`; the first argument is
-- `endpos + 1`, the number of positions that the loop has before it.
unfoldable pub find_start_of_expression_in_line : ℕ → Text → ℤ → ℕ → ℕ → Option ℕ × ℤ
find_start_of_expression_in_line zero line depth startchar endchar = (none, depth)
find_start_of_expression_in_line (suc i) line depth startchar endchar =
    let c = get_or line i 0 in
    let depth' =
      if c == endchar then succ_ℤ depth else if c == startchar then pred_ℤ depth else depth in
    let later = find_start_of_expression_in_line i line depth' startchar endchar in
    if c == endchar
    then later
    else if c == startchar
    then (if is_zero depth' then (some i, pos 0) else later)
    else later

abbrev pub opening : ℕ → Option ℕ
opening c =
    if c == b')'
    then some b'('
    else if c == b']'
    then some b'['
    else if c == b'}'
    then some b'{'
    else if c == b'>'
    then some b'<'
    else none

-- `while linenum > 0`
unfoldable pub close_backward : Text → ℕ → CleansedLines → ℤ → ℕ → ℕ → Position
unfolding find_start_of_expression_in_line
close_backward line zero clean_lines num_open startchar endchar = record {
  line = line;
  linenum = 0;
  pos_in_line = none;
}
close_backward line (suc linenum) clean_lines num_open startchar endchar =
    let next = get_or clean_lines.elided linenum [] in
    let r = find_start_of_expression_in_line (length next) next num_open startchar endchar in
    let later = close_backward next linenum clean_lines r.1 startchar endchar in
    if is_some r.0 then record { line = next; linenum = linenum; pos_in_line = r.0 } else later

unfoldable pub reverse_close_with : CleansedLines → ℕ → ℕ → ℕ → ℕ → Position
unfolding close_backward
reverse_close_with clean_lines linenum p startchar endchar =
    let line = get_or clean_lines.elided linenum [] in
    let r = find_start_of_expression_in_line (p + 1) line (pos 0) startchar endchar in
    if is_some r.0
    then record { line = line; linenum = linenum; pos_in_line = r.0 }
    else close_backward line linenum clean_lines r.1 startchar endchar

-- `ReverseCloseExpression(clean_lines, linenum, pos)`, for a `pos` on the line
unfoldable pub reverse_close_expression : CleansedLines → ℕ → ℕ → Position
unfolding reverse_close_with
reverse_close_expression clean_lines linenum p =
    let line = get_or clean_lines.elided linenum [] in
    elim (opening (get_or line p 0)) [
      | none ↦ record { line = line; linenum = 0; pos_in_line = none }
      | some startchar ↦ reverse_close_with clean_lines linenum p startchar (get_or line p 0)
    ]
