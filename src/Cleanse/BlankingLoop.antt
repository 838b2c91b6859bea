-- ===== src/Cleanse/BlankingLoop.antt =====
-- The loop of `RemoveMultiLineComments` against the single pass.
use moohoorama.Base.{
  ℕ, zero, suc, ◌+◌, ◌≤◌, ◌<◌, true, ◌≡◌, refl, sym, ◌∙◌, inl, inr, List, [], ◌∷◌, ◌++◌,
  append_assoc, length, length-append, length-map, arith,
}
use moohoorama.Text.{Text}
use moohoorama.Cleanse.MultiLine.{
  opens_comment, ends_comment, dummy, remove_multi_line_comments_from_range, remove_loop,
  remove_multi_line_comments,
}
use moohoorama.Cleanse.MultiLineLaws.{
  begin_of, end_of, Without, remove_loop_done, remove_loop_open, remove_loop_next,
}
use moohoorama.Cleanse.Blanking.{
  dummies, SplitAt, find_line-SplitAt, drop_append, remove-append, code-Segment, HeadOpens,
  HeadOpens-cut, comment-Segment, Blanks, Blanks-append, outside,
}

begin-SplitAt :
    (before rest : List Text)
    → (k : ℕ) × (begin_of (before ++ rest) (length before) ≡ length before + k)
      × SplitAt opens_comment rest k
begin-SplitAt before rest =
    rw (drop_append before rest) (find_line-SplitAt opens_comment (length before) rest)

module _ (fuel : ℕ) (before front : List Text) (y : Text) (back : List Text) where
  abbrev all_lines : List Text
  all_lines = before ++ (front ++ (y ∷ back))

  module _ (begin_eq : begin_of all_lines (length before) ≡ length before + length front) where
    end-SplitAt :
        (m : ℕ) × (end_of all_lines (length before) ≡ length before + length front + m)
        × SplitAt ends_comment (y ∷ back) m
    end-SplitAt =
        rw
          (
            begin_eq,
            sym (length-append {0} before front),
            sym (append_assoc before front (y ∷ back)),
            drop_append (before ++ front) (y ∷ back),
          )
          (find_line-SplitAt ends_comment (length (before ++ front)) (y ∷ back))

    all_lines-length : length all_lines ≡ length before + length front + suc (length back)
    all_lines-length =
        omega (
          arith,
          length-append {0} before (front ++ (y ∷ back)),
          length-append {0} front (y ∷ back),
        )

    Blanks-unclosed :
        Without opens_comment front
        → opens_comment y ≡ true
        → Without ends_comment (y ∷ back)
        → length all_lines ≤ end_of all_lines (length before)
        → Blanks before (front ++ (y ∷ back)) (remove_loop (suc fuel) all_lines (length before))
    Blanks-unclosed w o n h =
        rw
          (remove_loop_open fuel all_lines (length before) (omega (arith, all_lines-length))
            (omega (arith, all_lines-length, begin_eq)) h)
          (inr (
            front,
            y,
            back,
            refl,
            (outside front w).1,
            o,
            n,
            rw ((outside front w).0, begin_eq) refl,
          ))

comment_length :
    (done body : List Text) (e : Text)
    → length done + length body + 1 ≡ length done + length (body ++ (e ∷ []))
comment_length done body e = omega (arith, length-append {0} body (e ∷ []))

-- The range of a comment behind other lines: it is cleared, and the loop goes on behind it.
remove_comment :
    (done body : List Text) (e : Text) (back : List Text)
    → remove_multi_line_comments_from_range
        (done ++ (body ++ (e ∷ back)))
        (length done)
        (length done + length body + 1)
      ≡ (done ++ dummies (body ++ (e ∷ []))) ++ back
remove_comment done body e back =
    let cut = append_assoc body (e ∷ []) back in
    let count = comment_length done body e in
    rw (sym cut, count, append_assoc done (dummies (body ++ (e ∷ []))) back)
      (remove-append done (body ++ (e ∷ [])) back)

behind_comment :
    (done body : List Text) (e : Text)
    → length done + length body + 1 ≡ length (done ++ dummies (body ++ (e ∷ [])))
behind_comment done body e = omega (
  arith,
  length-append {0} done (dummies (body ++ (e ∷ []))),
  length-map (body ++ (e ∷ [])) (λ (_ : Text). dummy),
  length-append {0} body (e ∷ []),
)

module _ (fuel : ℕ) (before front body : List Text) (e : Text) (rest : List Text) where
  abbrev lines_with : List Text
  lines_with = before ++ (front ++ (body ++ (e ∷ rest)))

  -- The lines in front of the next round of the loop.
  abbrev done_next : List Text
  done_next = (before ++ front) ++ dummies (body ++ (e ∷ []))

  lines_with-length :
      length lines_with ≡ length before + length front + length body + suc (length rest)
  lines_with-length = omega (
    arith,
    length-append {0} before (front ++ (body ++ (e ∷ rest))),
    length-append {0} front (body ++ (e ∷ rest)),
    length-append {0} body (e ∷ rest),
  )

  done_next-length : length before + length front + length body + 1 ≡ length done_next
  done_next-length =
      rw (sym (length-append {0} before front)) (behind_comment (before ++ front) body e)

  module _ (b : begin_of lines_with (length before) ≡ length before + length front)
      (n : end_of lines_with (length before) ≡ length before + length front + length body) where
    remove_loop-comment :
        remove_loop (suc fuel) lines_with (length before)
        ≡ remove_loop fuel (done_next ++ rest) (length done_next)
    remove_loop-comment =
        remove_loop_next fuel lines_with (length before) (omega (arith, lines_with-length))
          (omega (arith, lines_with-length, b)) (omega (arith, lines_with-length, n))
        ∙ rw
            (
              n,
              b,
              sym done_next-length,
              sym (length-append {0} before front),
              sym (append_assoc before front (body ++ (e ∷ rest))),
              remove_comment (before ++ front) body e rest,
            )
            refl

    Blanks-comment :
        length lines_with < suc fuel + length before
        → HeadOpens (body ++ (e ∷ rest))
        → Without opens_comment front
        → Without ends_comment body
        → ends_comment e ≡ true
        → ((done : List Text)
            → length (done ++ rest) < fuel + length done
            → Blanks done rest (remove_loop fuel (done ++ rest) (length done)))
        → Blanks before
            (front ++ (body ++ (e ∷ rest)))
            (remove_loop (suc fuel) lines_with (length before))
    Blanks-comment h o w v t ih =
        rw (remove_loop-comment, sym (append_assoc body (e ∷ []) rest))
          (Blanks-append before front front ((body ++ (e ∷ [])) ++ rest) _ (code-Segment front w) (
            Blanks-append (before ++ front) (body ++ (e ∷ [])) (dummies (body ++ (e ∷ []))) rest _
              (comment-Segment body e (HeadOpens-cut body e rest o) v t)
              (ih done_next (
                omega (
                  arith,
                  h,
                  lines_with-length,
                  length-append {0} done_next rest,
                  done_next-length,
                )))))

abbrev Settles : ℕ → Type 0
Settles fuel =
    (before rest : List Text)
    → length (before ++ rest) < fuel + length before
    → Blanks before rest (remove_loop fuel (before ++ rest) (length before))

module _ (fuel : ℕ) (later : Settles fuel) (before : List Text) where
  round_at_comment :
      (front : List Text) (y : Text) (back : List Text) (m : ℕ)
      → length (before ++ (front ++ (y ∷ back))) < suc fuel + length before
      → begin_of (before ++ (front ++ (y ∷ back))) (length before) ≡ length before + length front
      → end_of (before ++ (front ++ (y ∷ back))) (length before) ≡ length before + length front + m
      → SplitAt ends_comment (y ∷ back) m
      → Without opens_comment front
      → opens_comment y ≡ true
      → Blanks before
          (front ++ (y ∷ back))
          (remove_loop (suc fuel) (before ++ (front ++ (y ∷ back))) (length before))
  round_at_comment front y back m h b n (inl (k, v)) w o =
      Blanks-unclosed fuel before front y back b w o v
        (omega (arith, k, n, all_lines-length fuel before front y back b))
  round_at_comment front y back m h b n (inr (body, e, rest, s, k, v, t)) w o = rw s (
      Blanks-comment fuel before front body e rest (rw (sym s) b) (rw (sym s, sym k) n)
        (rw (sym s) h) (rw (sym s) o) w v t (λ done d. later done rest d))

  round :
      (rest : List Text) (k : ℕ)
      → length (before ++ rest) < suc fuel + length before
      → begin_of (before ++ rest) (length before) ≡ length before + k
      → SplitAt opens_comment rest k
      → Blanks before rest (remove_loop (suc fuel) (before ++ rest) (length before))
  round rest k h b (inl (q, w)) =
      rw
        (remove_loop_done fuel (before ++ rest) (length before)
          (omega (arith, b, q, length-append {0} before rest)))
        (inl ((outside rest w).1, rw (outside rest w).0 refl))
  round rest k h b (inr (front, y, back, s, q, w, o)) =
      let b' : begin_of (before ++ (front ++ (y ∷ back))) (length before)
          ≡ length before + length front =
        rw (sym s, sym q) b in
      let (m, n, split) = end-SplitAt fuel before front y back b' in
      rw s (round_at_comment front y back m (rw (sym s) h) b' n split w o)

Blanks-remove_loop : (fuel : ℕ) → Settles fuel
Blanks-remove_loop zero before rest h = absurd (omega (arith, length-append {0} before rest))
Blanks-remove_loop (suc fuel) before rest h =
    let (k, b, split) = begin-SplitAt before rest in
    round fuel (Blanks-remove_loop fuel) before rest k h b split

-- `RemoveMultiLineComments` does what the single pass does. Either the pass ends outside of a
-- comment, the lines are those of the pass, and nothing is reported; or the pass is outside at a
-- line that opens a comment and no line from there on ends it: then the lines before are those of
-- the pass, the lines from there on are untouched, and one error is reported, for that line.
pub remove_multi_line_comments-Blanks :
    (lines : List Text) → Blanks [] lines (remove_multi_line_comments lines)
unfolding remove_multi_line_comments
remove_multi_line_comments-Blanks lines =
    Blanks-remove_loop (suc (length lines)) [] lines (omega arith)
