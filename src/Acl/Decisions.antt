-- ===== src/Acl/Decisions.antt =====
-- What the access control list decides.
use xfr.Prelude.{
  ℕ, zero, suc, ◌+◌, ◌*◌, ◌/◌, ◌%◌, ◌^◌, ◌<◌, ◌≡◌, ◌↔◌, ◌⊎◌, refl, sym, ap, ◌∙◌, inl, inr, Bool,
  true, false, Option, none, some, List, [], ◌∷◌, ◌++◌, get_elem?, ++_assoc, ++_nil, arith,
  if◌then◌else◌, Bool-cases, Option-cases,
}
use xfr.Acl.{
  IpAddr, v4, v6, normalize_ip, Rule, deny_rule, allow_rule, Acl, FileLine, Directive, new,
  add_allow, add_deny, is_empty, any_contains, first_containing, is_allowed, or_allow, matched_rule,
  parse_all, cons_parsed, both_lists, from_rules, after, add_allows, add_denies, add_allow_text,
  add_deny_text, build,
}

-- An IPv4-mapped IPv6 address is treated as its IPv4 address.
pub normalize_ip_mapped : (a : ℕ) → a < 2 ^ 32 → normalize_ip (v6 (0xffff * 2 ^ 32 + a)) ≡ v4 a
unfolding normalize_ip
normalize_ip_mapped a h =
    let high : (0xffff * 2 ^ 32 + a) / 2 ^ 32 ≡ 0xffff = omega arith in
    let low : (0xffff * 2 ^ 32 + a) % 2 ^ 32 ≡ a = omega arith in ground (arith, ap v4 low)

true-false : true ≡ false → ⊥
true-false h = cc

none-some {ℓ} : {A : Type ℓ} {a : A} → some a ≡ none → ⊥
none-some h = cc

abbrev pub is_some {ℓ} : {A : Type ℓ} → Option A → Bool
is_some none = false
is_some (some a) = true

found_in {ℓ} :
    {A : Type ℓ} (b : Bool) (n : A) (rest : Bool) (first : Option A)
    → rest ≡ is_some first
    → (if b then true else rest) ≡ is_some (if b then some n else first)
found_in true n rest first h = refl
found_in false n rest first h = h

either_true : (b : Bool) → (if b then true else true) ≡ true
either_true true = refl
either_true false = refl

module _ {Network : Type 0} (contains : Network → IpAddr → Bool) where
  -- A network of the list contains the address.
  abbrev pub Covers : List Network → IpAddr → Type 0
  Covers ns ip = (i : ℕ) × (n : Network) × (get_elem? ns i ≡ some n) × (contains n ip ≡ true)

  covers : (ns : List Network) (ip : IpAddr) → any_contains contains ns ip ≡ true → Covers ns ip
  unfolding any_contains
  covers [] ip h = absurd cc
  covers (n ∷ ns) ip h = elim (Bool-cases (contains n ip)) [
    | inl yes_in ↦ (0, n, refl, yes_in)
    | inr not_in ↦
        let (i, m, at, in_m) =
          covers ns ip
            (sym (ap (λ b. if b then true else any_contains contains ns ip) not_in) ∙ h) in
        (suc i, m, at, in_m)
  ]

  covered : (ns : List Network) (ip : IpAddr) → Covers ns ip → any_contains contains ns ip ≡ true
  unfolding any_contains
  covered [] ip (i, n, at, in_n) = absurd cc
  covered (m ∷ ns) ip (zero, n, at, in_n) =
      let e : m ≡ n = cc in
      ap (λ k. if contains k ip then true else any_contains contains ns ip) e
      ∙ ap (λ b. if b then true else any_contains contains ns ip) in_n
  covered (m ∷ ns) ip (suc i, n, at, in_n) =
      ap (λ b. if contains m ip then true else b) (covered ns ip (i, n, at, in_n))
      ∙ either_true (contains m ip)

  decided :
      (denied listed : Bool) (xs : List Network)
      → (if denied then false else if is_empty xs then true else listed) ≡ true
      → (denied ≡ false) × ((xs ≡ []) ⊎ (listed ≡ true))
  decided true listed xs h = absurd cc
  decided false listed [] h = (refl, inl refl)
  decided false listed (x ∷ xs) h = (refl, inr h)

  deciding :
      (denied listed : Bool) (xs : List Network)
      → (denied ≡ false) × ((xs ≡ []) ⊎ (listed ≡ true))
      → (if denied then false else if is_empty xs then true else listed) ≡ true
  deciding true listed xs (h, k) = absurd cc
  deciding false listed [] (h, k) = refl
  deciding false listed (x ∷ xs) (h, inl k) = absurd cc
  deciding false listed (x ∷ xs) (h, inr k) = k

  -- An address is allowed exactly when no denied network contains it, in its normal form, and
  -- either no network is listed as allowed or one of those contains it.
  pub is_allowed_iff :
      (acl : Acl Network) (ip : IpAddr)
      → (is_allowed contains acl ip ≡ true) ↔ (
          ¬ Covers acl.deny (normalize_ip ip)
          × ((acl.allow ≡ []) ⊎ Covers acl.allow (normalize_ip ip)))
  unfolding is_allowed
  is_allowed_iff acl ip =
      let low = normalize_ip ip in
      (
        λ h.
            let (free, listed) =
              decided (any_contains contains acl.deny low) (any_contains contains acl.allow low)
                acl.allow h in
            (
              λ denied. absurd (true-false (sym (covered acl.deny low denied) ∙ free)),
              elim listed [
                | inl none_listed ↦ inl none_listed
                | inr some_listed ↦ inr (covers acl.allow low some_listed)
              ],
            ),
        λ (free, listed).
            deciding (any_contains contains acl.deny low) (any_contains contains acl.allow low)
              acl.allow
              (
                elim (Bool-cases (any_contains contains acl.deny low)) [
                  | inl denied ↦ absurd (free (covers acl.deny low denied))
                  | inr open_to ↦ open_to
                ],
                elim listed [
                  | inl none_listed ↦ inl none_listed
                  | inr some_listed ↦ inr (covered acl.allow low some_listed)
                ],
              ),
      )

  -- The verdict that a reported rule stands for.
  abbrev pub verdict : List Network → Option (Rule Network) → Bool
  verdict allow (some (deny_rule n)) = false
  verdict allow (some (allow_rule n)) = true
  verdict allow none = is_empty allow

  found :
      (ns : List Network) (ip : IpAddr)
      → any_contains contains ns ip ≡ is_some (first_containing contains ns ip)
  unfolding any_contains first_containing
  found [] ip = refl
  found (n ∷ ns) ip =
      found_in (contains n ip) n (any_contains contains ns ip) (first_containing contains ns ip)
        (found ns ip)

  verdicts :
      (allow : List Network) (denied listed : Option Network)
      → (is_empty allow ≡ true → listed ≡ none)
      → (if is_some denied then false else if is_empty allow then true else is_some listed)
        ≡ verdict allow (or_allow contains denied listed)
  verdicts allow (some d) listed h = refl
  verdicts [] none none h = refl
  verdicts [] none (some a) h = absurd (none-some (h refl))
  verdicts (n ∷ ns) none none h = refl
  verdicts (n ∷ ns) none (some a) h = refl

  none_listed :
      (allow : List Network) (ip : IpAddr)
      → is_empty allow ≡ true
      → first_containing contains allow ip ≡ none
  unfolding first_containing
  none_listed [] ip h = refl
  none_listed (n ∷ ns) ip h = absurd cc

  -- The rule reported for an address agrees with the decision: a deny rule is reported only of a
  -- refused address, an allow rule only of an allowed one, and with no rule reported an address is
  -- allowed exactly when no network is listed as allowed.
  pub matched_rule-is_allowed :
      (acl : Acl Network) (ip : IpAddr)
      → is_allowed contains acl ip ≡ verdict acl.allow (matched_rule contains acl ip)
  unfolding is_allowed matched_rule
  matched_rule-is_allowed acl ip =
      let low = normalize_ip ip in
      ap
        (λ b.
          if b
          then false
          else if is_empty acl.allow
          then true
          else any_contains contains acl.allow low)
        (found acl.deny low)
      ∙ ap
          (λ b.
            if is_some (first_containing contains acl.deny low)
            then false
            else if is_empty acl.allow
            then true
            else b)
          (found acl.allow low)
      ∙ verdicts acl.allow (first_containing contains acl.deny low)
          (first_containing contains acl.allow low) (none_listed acl.allow low)

module _ {Network Text : Type 0} (parse : Text → Option Network) where
  append_parsed : List Network → Option (List Network) → Option (List Network)
  append_parsed before none = none
  append_parsed before (some ns) = some (before ++ ns)

  with_allow : Acl Network → Option (List Network) → Option (Acl Network)
  with_allow acl none = none
  with_allow acl (some ns) = some (record acl { allow = ns })

  with_deny : Acl Network → Option (List Network) → Option (Acl Network)
  with_deny acl none = none
  with_deny acl (some ns) = some (record acl { deny = ns })

  append_cons :
      (before : List Network) (n : Network) (rest : Option (List Network))
      → append_parsed (before ++ n ∷ []) rest
        ≡ append_parsed before (cons_parsed parse (some n) rest)
  unfolding append_parsed
  append_cons before n none = refl
  append_cons before n (some ns) = ap some (++_assoc before (n ∷ []) ns)

  add_allows_lem :
      (ts : List Text) (acl : Acl Network)
      → add_allows parse ts acl ≡ with_allow acl (append_parsed acl.allow (parse_all parse ts))
  unfolding add_allows parse_all with_allow append_parsed add_allow
  add_allows_lem [] acl = ap (λ l. some (record acl { allow = l })) (sym (++_nil acl.allow))
  add_allows_lem (t ∷ ts) acl = elim (Option-cases (parse t)) [
    | inl bad ↦ rw bad refl
    | inr (n, good) ↦
        ap (λ p. after parse (λ x. add_allows parse ts x) (add_allow_text parse p acl)) good
        ∙ add_allows_lem ts (add_allow n acl)
        ∙ ap (with_allow acl) (append_cons acl.allow n (parse_all parse ts))
        ∙ ap
            (λ p.
              with_allow acl (append_parsed acl.allow (cons_parsed parse p (parse_all parse ts))))
            (sym good)
  ]

  add_denies_lem :
      (ts : List Text) (acl : Acl Network)
      → add_denies parse ts acl ≡ with_deny acl (append_parsed acl.deny (parse_all parse ts))
  unfolding add_denies parse_all with_deny append_parsed add_deny
  add_denies_lem [] acl = ap (λ l. some (record acl { deny = l })) (sym (++_nil acl.deny))
  add_denies_lem (t ∷ ts) acl = elim (Option-cases (parse t)) [
    | inl bad ↦ rw bad refl
    | inr (n, good) ↦
        ap (λ p. after parse (λ x. add_denies parse ts x) (add_deny_text parse p acl)) good
        ∙ add_denies_lem ts (add_deny n acl)
        ∙ ap (with_deny acl) (append_cons acl.deny n (parse_all parse ts))
        ∙ ap
            (λ p. with_deny acl (append_parsed acl.deny (cons_parsed parse p (parse_all parse ts))))
            (sym good)
  ]

  parsed_both :
      (deny : List Text) (allowed denied : Option (List Network))
      → parse_all parse deny ≡ denied
      → after parse (add_denies parse deny) (with_allow new (append_parsed [] allowed))
        ≡ both_lists parse allowed denied
  unfolding with_allow append_parsed new with_deny
  parsed_both deny none denied h = refl
  parsed_both deny (some ns) none h =
      add_denies_lem deny (record { allow = ns; deny = [] })
      ∙ ap (λ p. with_deny (record { allow = ns; deny = [] }) (append_parsed [] p)) h
  parsed_both deny (some ns) (some ms) h =
      add_denies_lem deny (record { allow = ns; deny = [] })
      ∙ ap (λ p. with_deny (record { allow = ns; deny = [] }) (append_parsed [] p)) h

  -- A configuration without a file builds the list that its rules give, or fails as they do.
  pub build-from_rules :
      (directive : Text → Directive) (read : Text → Option (List (FileLine Text)))
      (allow deny : List Text)
      → build parse directive read (record { allow = allow; deny = deny; file = none })
        ≡ from_rules parse allow deny
  unfolding build from_rules new
  build-from_rules directive read allow deny =
      ap (after parse (add_denies parse deny)) (add_allows_lem allow new)
      ∙ parsed_both deny (parse_all parse allow) (parse_all parse deny) refl
