-- ===== src/Control/Reader/Lines.antt =====
-- The bounded line reader over a stream that comes in chunks: ASCII lines within the limit.
use xfr.Prelude.{
  ℕ, suc, ◌+◌, ◌≤◌, ◌<◌, ◌≡◌, refl, ap, sym, subst, ◌∙◌, ◌⊎◌, inl, inr, false, none, some, List, [],
  ◌∷◌, ◌++◌, length, take, drop, ◌==◌, if◌then◌else◌, arith, length-append, ++_assoc,
}
use xfr.Control.Reader.{
  Reader, Line, newline_pos, after_first, flatten, read_line_loop, line_round, read_within,
}

abbrev pub AllAscii : List ℕ → Type 0
AllAscii [] = Unit
AllAscii (b ∷ bytes) = (b < 128) × AllAscii bytes

abbrev pub NoNewline : List ℕ → Type 0
NoNewline [] = Unit
NoNewline (b ∷ bytes) = ((b == 10) ≡ false) × NoNewline bytes

AllAscii-append_left : (xs ys : List ℕ) → AllAscii (xs ++ ys) → AllAscii xs
AllAscii-append_left [] ys h = tt
AllAscii-append_left (x ∷ xs) ys h = (h.0, AllAscii-append_left xs ys h.1)

AllAscii-append_right : (xs ys : List ℕ) → AllAscii (xs ++ ys) → AllAscii ys
AllAscii-append_right [] ys h = h
AllAscii-append_right (x ∷ xs) ys h = AllAscii-append_right xs ys h.1

AllAscii-snoc : (xs : List ℕ) (b : ℕ) → AllAscii xs → b < 128 → AllAscii (xs ++ b ∷ [])
AllAscii-snoc [] b h lt = (lt, tt)
AllAscii-snoc (x ∷ xs) b h lt = (h.0, AllAscii-snoc xs b h.1 lt)

-- The chunk ends the line, or the line goes on after it.
abbrev Cut : List ℕ → List ℕ → List ℕ → List ℕ → Type 0
Cut bytes tail line rest =
    ((newline_pos bytes ≡ some (length line))
      × (take (suc (length line)) bytes ≡ line ++ 10 ∷ [])
      × (drop (suc (length line)) bytes ++ tail ≡ rest))
    ⊎ ((line' : List ℕ) × (newline_pos bytes ≡ none)
        × (line ≡ bytes ++ line')
        × (tail ≡ line' ++ 10 ∷ rest)
        × NoNewline line')

newline_pos-skip :
    (b : ℕ) (bytes : List ℕ)
    → (b == 10) ≡ false
    → newline_pos (b ∷ bytes) ≡ after_first (newline_pos bytes)
unfolding newline_pos
newline_pos-skip b bytes h = ap (λ t. if t then some 0 else after_first (newline_pos bytes)) h

newline_pos-hit : (b : ℕ) (bytes : List ℕ) → b ≡ 10 → newline_pos (b ∷ bytes) ≡ some 0
unfolding newline_pos
newline_pos-hit b bytes h = ground arith

cut :
    (bytes tail line rest : List ℕ)
    → NoNewline line
    → bytes ++ tail ≡ line ++ 10 ∷ rest
    → Cut bytes tail line rest
unfolding newline_pos
cut [] tail line rest no_newline e = inr (line, refl, refl, e, no_newline)
cut (b ∷ bytes) tail [] rest no_newline e = inl (newline_pos-hit b bytes cc, cc, cc)
cut (b ∷ bytes) tail (x ∷ line) rest no_newline e =
    let same : b ≡ x = cc in
    let other : (b == 10) ≡ false = ap (λ y. y == 10) same ∙ no_newline.0 in
    let next : bytes ++ tail ≡ line ++ 10 ∷ rest = cc in
    elim (cut bytes tail line rest no_newline.1 next) [
      | inl (found, taken, left) ↦
          inl (
            newline_pos-skip b bytes other ∙ ap after_first found ∙ ap some (omega arith),
            cc,
            left,
          )
      | inr (line', absent, split, after, ok) ↦
          inr (line', newline_pos-skip b bytes other ∙ ap after_first absent, cc, after, ok)
    ]

module _ (limit : ℕ) (lossy : List ℕ → List ℕ) where
  -- `String::from_utf8_lossy` changes no ASCII text.
  abbrev pub IsLossless : Type 0
  IsLossless = (bytes : List ℕ) → AllAscii bytes → lossy bytes ≡ bytes

  -- The line and its newline are returned, and the reader stands behind them.
  abbrev pub Returns : Line → ℕ → List ℕ → List ℕ → Type 0
  Returns result count line rest = (result.1 ≡ inr (count, line)) × (flatten result.0 ≡ rest)

  pub round_hit :
      (bytes : List ℕ) (chunks : Reader) (total : ℕ) (buf : List ℕ) (k : ℕ) (next : Line)
      → total + suc k ≤ limit
      → line_round limit lossy bytes chunks total buf (some k) next
        ≡ (drop (suc k) bytes ∷ chunks, inr (total + suc k, buf ++ lossy (take (suc k) bytes)))
  round_hit bytes chunks total buf k next fits =
      let e : k + 1 ≡ suc k = omega arith in rw e (ground arith)

  pub round_miss :
      (bytes : List ℕ) (chunks : Reader) (total : ℕ) (buf : List ℕ) (next : Line)
      → total + length bytes ≤ limit
      → line_round limit lossy bytes chunks total buf none next ≡ next
  round_miss bytes chunks total buf next fits = ground arith

  text_lem :
      (buf bytes line' line : List ℕ)
      → lossy bytes ≡ bytes
      → line ≡ bytes ++ line'
      → (buf ++ lossy bytes) ++ (line' ++ 10 ∷ []) ≡ buf ++ (line ++ 10 ∷ [])
  text_lem buf bytes line' line same split =
      ap (λ t. (buf ++ t) ++ (line' ++ 10 ∷ [])) same
      ∙ ++_assoc buf bytes (line' ++ 10 ∷ [])
      ∙ ap (λ t. buf ++ t) (sym (++_assoc bytes line' (10 ∷ [])))
      ∙ ap (λ t. buf ++ (t ++ 10 ∷ [])) (sym split)

  loop_lem :
      (chunks : Reader) (total : ℕ) (buf line rest : List ℕ)
      → IsLossless
      → AllAscii line
      → NoNewline line
      → flatten chunks ≡ line ++ 10 ∷ rest
      → total + suc (length line) ≤ limit
      → Returns
          (read_line_loop limit lossy chunks total buf)
          (total + suc (length line))
          (buf ++ (line ++ 10 ∷ []))
          rest
  unfolding read_line_loop
  loop_lem [] total buf [] rest lossless ascii one fits e = cc
  loop_lem [] total buf (x ∷ line) rest lossless ascii one fits e = cc
  loop_lem ([] ∷ chunks) total buf line rest lossless ascii one fits e =
      loop_lem chunks total buf line rest lossless ascii one fits e
  loop_lem ((b ∷ more) ∷ chunks) total buf line rest lossless ascii one fits e =
      elim (cut (b ∷ more) (flatten chunks) line rest one fits) [
        | inl (found, taken, left) ↦
            let next =
              read_line_loop limit lossy chunks (total + length (b ∷ more))
                (buf ++ lossy (b ∷ more)) in
            let r =
              ap (λ p. line_round limit lossy (b ∷ more) chunks total buf p next) found
              ∙ round_hit (b ∷ more) chunks total buf (length line) next e in
            let text =
              ap lossy taken
              ∙ lossless (line ++ 10 ∷ []) (AllAscii-snoc line 10 ascii (omega arith)) in
            (
              ap (λ o. o.1) r ∙ ap (λ t. inr (total + suc (length line), buf ++ t)) text,
              ap (λ o. flatten o.0) r ∙ left,
            )
        | inr (line', absent, split, after, ok) ↦
            let bytes = b ∷ more in
            let next =
              read_line_loop limit lossy chunks (total + length bytes) (buf ++ lossy bytes) in
            let size : length line ≡ length bytes + length line' =
              ap length split ∙ length-append bytes line' in
            let halves : AllAscii (bytes ++ line') = subst AllAscii split ascii in
            let text : (buf ++ lossy bytes) ++ (line' ++ 10 ∷ []) ≡ buf ++ (line ++ 10 ∷ []) =
              text_lem buf bytes line' line
                (lossless bytes (AllAscii-append_left bytes line' halves)) split in
            let (read, left) =
              loop_lem chunks (total + length bytes) (buf ++ lossy bytes) line' rest lossless
                (AllAscii-append_right bytes line' halves) ok after (omega arith) in
            let count : total + length bytes + suc (length line') ≡ total + suc (length line) =
              omega arith in
            let r =
              ap (λ p. line_round limit lossy bytes chunks total buf p next) absent
              ∙ round_miss bytes chunks total buf next (omega arith) in
            (
              ap (λ o. o.1) r
                  ∙ read
                  ∙ ap (λ n. inr (n, (buf ++ lossy bytes) ++ (line' ++ 10 ∷ []))) count
                  ∙ ap (λ t. inr (total + suc (length line), t)) text,
              ap (λ o. flatten o.0) r ∙ left,
            )
      ]

  -- An ASCII line of the stream, its newline included no longer than the limit, is read whole and
  -- with its length, and the reader stands behind its newline, however the stream is cut.
  pub read_within_lem :
      (chunks : Reader) (line rest : List ℕ)
      → IsLossless
      → AllAscii line
      → NoNewline line
      → flatten chunks ≡ line ++ 10 ∷ rest
      → length line + 1 ≤ limit
      → Returns (read_within limit lossy chunks) (length line + 1) (line ++ 10 ∷ []) rest
  unfolding read_within
  read_within_lem chunks line rest lossless ascii one e fits =
      let (read, left) = loop_lem chunks 0 [] line rest lossless ascii one e (omega arith) in
      (
        read
            ∙ (let count : 0 + suc (length line) ≡ length line + 1 = omega arith in
                ap (λ n. inr (n, line ++ 10 ∷ [])) count),
        left,
      )
