-- ===== src/Control/Reader/Limits.antt =====
-- The limit of the bounded line reader: how much of the stream a read takes.
use xfr.Prelude.{
  ℕ, suc, ◌+◌, ◌*◌, ◌≤◌, ◌<◌, ◌≡◌, refl, ap, sym, subst, ◌∙◌, inl, inr, Option, none, some, List,
  [], ◌∷◌, ◌++◌, length, take, drop, ◌==◌, ltb, arith, length-append, length-take, length-drop,
  Bool-cases,
}
use xfr.Control.Reader.{
  Reader, Line, newline_pos, after_first, flatten, read_line_loop, line_round, read_within,
}
use xfr.Control.Reader.Lines.{round_hit, round_miss}

after_first-bound :
    (o : Option ℕ) (k size : ℕ)
    → ((i : ℕ) → o ≡ some i → i < size)
    → after_first o ≡ some k
    → k < suc size
after_first-bound none k size bound h = absurd cc
after_first-bound (some i) k size bound h = let e : i + 1 ≡ k = cc in omega (arith, e, bound i refl)

newline_pos-bound : (bytes : List ℕ) (k : ℕ) → newline_pos bytes ≡ some k → k < length bytes
unfolding newline_pos
newline_pos-bound [] k h = absurd cc
newline_pos-bound (b ∷ bytes) k h = elim (Bool-cases (b == 10)) [
  | inl here ↦ ground (arith, h, here)
  | inr there ↦
      after_first-bound (newline_pos bytes) k (length bytes) (newline_pos-bound bytes)
        (ground (arith, h, there))
]

module _ (limit : ℕ) (lossy : List ℕ → List ℕ) where
  -- `String::from_utf8_lossy` puts at most three bytes, U+FFFD, for one that it cannot read.
  abbrev pub IsLossyByThree : Type 0
  IsLossyByThree = (bytes : List ℕ) → length (lossy bytes) ≤ 3 * length bytes

  -- The count is that of the bytes gone from the stream, within the limit, and bounds the line.
  abbrev pub IsBounded : Line → ℕ → List ℕ → ℕ → Type 0
  IsBounded result n line before =
      (n ≤ limit) × (n + length (flatten result.0) ≡ before) × (length line ≤ 3 * n)

  length-buf :
      (total : ℕ) (buf bytes : List ℕ)
      → IsLossyByThree
      → length buf ≤ 3 * total
      → length (buf ++ lossy bytes) ≤ 3 * (total + length bytes)
  length-buf total buf bytes three h =
      omega (arith, h, three bytes, length-append buf (lossy bytes))

  hit_bound :
      (bytes : List ℕ) (chunks : Reader) (total : ℕ) (buf : List ℕ) (k : ℕ) (line : List ℕ)
      (n before : ℕ)
      → IsLossyByThree
      → length buf ≤ 3 * total
      → k < length bytes
      → total + (length bytes + length (flatten chunks)) ≡ before
      → total + suc k ≤ limit
      → n ≡ total + suc k
      → line ≡ buf ++ lossy (take (suc k) bytes)
      → IsBounded
          (drop (suc k) bytes ∷ chunks, inr (total + suc k, buf ++ lossy (take (suc k) bytes)))
          n
          line
          before
  hit_bound bytes chunks total buf k line n before three short inside all enough count text =
      let taken : length (take (suc k) bytes) ≡ suc k =
        length-take (suc k) bytes ∙ omega (arith, inside) in
      let left = length-drop (suc k) bytes in
      let rest = length-append (drop (suc k) bytes) (flatten chunks) in
      let long = length-buf total buf (take (suc k) bytes) three short in
      (
        omega (arith, count, enough),
        omega (arith, count, left, rest, all, inside),
        subst (λ l. length l ≤ 3 * n) (sym text) (omega (arith, count, taken, long)),
      )

  round_bound :
      (bytes : List ℕ) (chunks : Reader) (total : ℕ) (buf : List ℕ) (p : Option ℕ) (next : Line)
      (line : List ℕ) (n before : ℕ)
      → IsLossyByThree
      → length buf ≤ 3 * total
      → ((k : ℕ) → p ≡ some k → k < length bytes)
      → total + (length bytes + length (flatten chunks)) ≡ before
      → (total + length bytes ≤ limit → next.1 ≡ inr (n, line) → IsBounded next n line before)
      → (line_round limit lossy bytes chunks total buf p next).1 ≡ inr (n, line)
      → IsBounded (line_round limit lossy bytes chunks total buf p next) n line before
  round_bound bytes chunks total buf none next line n before three short inside all step h =
      elim (Bool-cases (ltb limit (total + length bytes))) [
        | inl over ↦ ground (arith, h, over)
        | inr fits ↦
            let enough : total + length bytes ≤ limit = ground (arith, fits) in
            let e = round_miss limit lossy bytes chunks total buf next enough in
            subst (λ r. IsBounded r n line before) (sym e) (step enough (ap (λ r. r.1) (sym e) ∙ h))
      ]
  round_bound bytes chunks total buf (some k) next line n before three short inside all step h =
      elim (Bool-cases (ltb limit (total + (k + 1)))) [
        | inl over ↦ ground (arith, h, over)
        | inr fits ↦
            let enough : total + suc k ≤ limit = ground (arith, fits) in
            let e = round_hit limit lossy bytes chunks total buf k next enough in
            let read = ap (λ r. r.1) (sym e) ∙ h in
            let count : n ≡ total + suc k = cc in
            let text : line ≡ buf ++ lossy (take (suc k) bytes) = cc in
            subst (λ r. IsBounded r n line before) (sym e)
              (hit_bound bytes chunks total buf k line n before three short (inside k refl) all
                enough count text)
      ]

  loop_bound :
      (chunks : Reader) (total : ℕ) (buf line : List ℕ) (n : ℕ)
      → IsLossyByThree
      → length buf ≤ 3 * total
      → total ≤ limit
      → (read_line_loop limit lossy chunks total buf).1 ≡ inr (n, line)
      → IsBounded
          (read_line_loop limit lossy chunks total buf)
          n
          line
          (total + length (flatten chunks))
  unfolding read_line_loop
  loop_bound [] total buf line n three short le h =
      let count : n ≡ total = cc in
      let text : line ≡ buf = cc in
      (
        omega (arith, count, le),
        omega (arith, count),
        subst (λ l. length l ≤ 3 * n) (sym text) (omega (arith, count, short)),
      )
  loop_bound ([] ∷ chunks) total buf line n three short le h =
      loop_bound chunks total buf line n three short le h
  loop_bound ((b ∷ more) ∷ chunks) total buf line n three short le h =
      let bytes = b ∷ more in
      let size = length-append bytes (flatten chunks) in
      round_bound bytes chunks total buf (newline_pos bytes) _ line n
        (total + length (flatten ((b ∷ more) ∷ chunks))) three short
        (λ k. newline_pos-bound bytes k) (omega (arith, size))
        (λ fits read.
          let (within, left, long) =
            loop_bound chunks (total + length bytes) (buf ++ lossy bytes) line n three
              (length-buf total buf bytes three short) fits read in
          (within, left ∙ omega (arith, size), long))
        h

  -- A read that returns a line has taken as many bytes off the stream as it says, at most the limit.
  -- The line is at most three times as long, when the lossy conversion makes at most three bytes of
  -- each.
  pub read_within-IsBounded :
      (chunks : Reader) (line : List ℕ) (n : ℕ)
      → IsLossyByThree
      → (read_within limit lossy chunks).1 ≡ inr (n, line)
      → IsBounded (read_within limit lossy chunks) n line (length (flatten chunks))
  unfolding read_within
  read_within-IsBounded chunks line n three h =
      let (within, left, long) =
        loop_bound chunks 0 [] line n three (omega arith) (omega arith) h in
      (within, omega (arith, left), long)
