-- ===== src/Cli/Hosts.antt =====
-- What a host written with a port is split into.
use xfr.Prelude.{
  ℕ, ◌≡◌, refl, ap, ◌∙◌, true, false, not, ◌&&◌, Option, none, some, List, [], ◌∷◌, ◌++◌, leb, ◌==◌,
  if◌then◌else◌, arith, inl, inr, Bool-cases,
}
use xfr.Prelude.Words.{u16_max}
use xfr.Cli.Numbers.{
  invalid_port, Outcome, ok, err, ends_with, without_last, value, AllDigits, print_digits,
  parse_uint-print_digits,
}
use xfr.Cli.Address.{
  strip_bracket, put_before, port_or_error, split_once, split_close, contains, with_port,
  after_colon, after_close, after_bracket, split_host_port,
}

split_once_append :
    (c : ℕ) (host after : List ℕ)
    → contains c host ≡ false
    → split_once c (host ++ c ∷ after) ≡ some (host, after)
unfolding split_once contains
split_once_append c [] after h = ground arith
split_once_append c (d ∷ host) after h =
    let other : (d == c) ≡ false = ground (arith, h) in
    let rest : contains c host ≡ false = ground (arith, h) in
    ap
      (λ b.
        if b then some ([], host ++ c ∷ after) else put_before d (split_once c (host ++ c ∷ after)))
      other
    ∙ ap (put_before d) (split_once_append c host after rest)

split_close_append :
    (host after : List ℕ)
    → contains b']' host ≡ false
    → split_close (host ++ b']' ∷ b':' ∷ after) ≡ some (host, after)
unfolding split_close contains
split_close_append [] after h = refl
split_close_append (d ∷ []) after h =
    let other : (d == b']') ≡ false = ground (arith, h) in
    ap (λ b. if b && false then some ([], b':' ∷ after) else some (d ∷ [], after)) other
split_close_append (d ∷ e ∷ host) after h =
    let other : (d == b']') ≡ false = ground (arith, h) in
    let rest : contains b']' (e ∷ host) ≡ false = ground (arith, h) in
    ap
      (λ b.
        if b && e == b':'
        then some ([], host ++ b']' ∷ b':' ∷ after)
        else put_before d (split_close (e ∷ host ++ b']' ∷ b':' ∷ after)))
      other
    ∙ ap (put_before d) (split_close_append (e ∷ host) after rest)

ends_with_tail : (c d : ℕ) (s t : List ℕ) → ends_with c (s ++ d ∷ t) ≡ ends_with c (d ∷ t)
unfolding ends_with
ends_with_tail c d [] t = refl
ends_with_tail c d (e ∷ []) t = refl
ends_with_tail c d (e ∷ f ∷ s) t = ends_with_tail c d (f ∷ s) t

no_colon : (ds : List ℕ) → AllDigits ds → contains b':' (print_digits ds) ≡ false
unfolding contains
no_colon [] digits = refl
no_colon (d ∷ ds) digits = ground (arith, digits.0, no_colon ds digits.1)

no_bracket :
    (d : ℕ) (ds : List ℕ) → AllDigits (d ∷ ds) → ends_with b']' (print_digits (d ∷ ds)) ≡ false
unfolding ends_with
no_bracket d [] digits = ground (arith, digits.0)
no_bracket d (e ∷ ds) digits = no_bracket e ds digits.1

-- what follows from the port
abbrev pub read_port : List ℕ → ℕ → Outcome (List ℕ × Option ℕ)
read_port host n = if leb n u16_max then ok (host, some n) else err invalid_port

module _ (host : List ℕ) (d : ℕ) (ds : List ℕ) (digits : AllDigits (d ∷ ds)) where
  abbrev port : List ℕ
  port = print_digits (d ∷ ds)

  with_port_lem : with_port (host, port) ≡ read_port host (value (d ∷ ds) 0)
  with_port_lem =
      let n = value (d ∷ ds) 0 in
      ap (port_or_error host) (parse_uint-print_digits u16_max d ds digits)
      ∙ elim (Bool-cases (leb n u16_max)) [ inl e ↦ rw e refl | inr e ↦ rw e refl ]

  -- A host without a colon or an opening bracket at its start, a colon and digits are read as that
  -- host and that port, or as an error when the port is more than 65535.
  pub split_host_port_plain :
      contains b':' host ≡ false
      → strip_bracket (host ++ b':' ∷ port) ≡ none
      → split_host_port (host ++ b':' ∷ port) ≡ read_port host (value (d ∷ ds) 0)
  unfolding split_host_port
  split_host_port_plain plain open_less =
      ap (after_bracket (host ++ b':' ∷ port)) open_less
      ∙ ap (after_colon (host ++ b':' ∷ port)) (split_once_append b':' host port plain)
      ∙ ap (λ b. if not b then with_port (host, port) else ok (host ++ b':' ∷ port, none))
          (no_colon (d ∷ ds) digits)
      ∙ with_port_lem

  abbrev bracketed : List ℕ
  bracketed = b'[' ∷ (host ++ b']' ∷ b':' ∷ port)

  -- A host in brackets, which may have colons but no closing bracket, a colon and digits are read as
  -- that host and that port, or as an error when the port is more than 65535.
  pub split_host_port-bracketed :
      contains b']' host ≡ false → split_host_port bracketed ≡ read_port host (value (d ∷ ds) 0)
  unfolding split_host_port
  split_host_port-bracketed closed =
      let rest = host ++ b']' ∷ b':' ∷ port in
      ap (λ b. if b then ok (without_last rest, none) else after_close bracketed (split_close rest))
        (ends_with_tail b']' b']' host (b':' ∷ port) ∙ no_bracket d ds digits)
      ∙ ap (after_close bracketed) (split_close_append host port closed)
      ∙ with_port_lem

-- Text with two colons or more that does not start with a bracket, as an IPv6 address has them, is
-- all host and has no port.
pub split_host_port_bare :
    (first rest : List ℕ)
    → contains b':' first ≡ false
    → contains b':' rest ≡ true
    → strip_bracket (first ++ b':' ∷ rest) ≡ none
    → split_host_port (first ++ b':' ∷ rest) ≡ ok (first ++ b':' ∷ rest, none)
unfolding split_host_port
split_host_port_bare first rest one more open_less =
    let s = first ++ b':' ∷ rest in
    ap (after_bracket s) open_less
    ∙ ap (after_colon s) (split_once_append b':' first rest one)
    ∙ ap (λ b. if not b then with_port (first, rest) else ok (s, none)) more
