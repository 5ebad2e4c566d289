-- ===== src/Auth/Comparison.antt =====
-- The constant-time comparison against equality.
use Prim.Native.Nat.{bit_or, bit_xor, digits, differ, bit_or-bitwise, bit_xor-bitwise}
use xfr.Prelude.{
  ℕ, zero, suc, ◌/◌, ◌%◌, ◌≤◌, ◌≡◌, ◌↔◌, refl, sym, ap, ◌∙◌, true, List, [], ◌∷◌, length, get_or,
  max, ◌==◌, if◌then◌else◌, arith,
}
use xfr.Auth.{scan, constant_time_eq, compute_response_with_key, verify_response_with_key}

differ-zero : (a b : ℕ) → differ a b ≡ 0 → a ≡ b
differ-zero zero b h = sym h
differ-zero (suc a) zero h = h
differ-zero (suc a) (suc b) h = ap suc (differ-zero a b h)

digits-differ : (n a b : ℕ) → a ≤ n → digits (λ b. b) differ n a b ≡ 0 → a ≡ b
digits-differ zero a b le h = omega arith
digits-differ (suc n) zero b le h = sym h
digits-differ (suc n) (suc a) b le h =
    let high : suc a / 2 ≡ b / 2 =
      digits-differ n (suc a / 2) (b / 2) (omega arith) (omega (arith, h)) in
    let low : suc a % 2 ≡ b % 2 = differ-zero (suc a % 2) (b % 2) (omega (arith, h)) in omega arith

differ_self : (a : ℕ) → differ a a ≡ 0
differ_self zero = refl
differ_self (suc a) = differ_self a

digits-differ_self : (n a : ℕ) → a ≤ n → digits (λ b. b) differ n a a ≡ 0
digits-differ_self zero a le = omega arith
digits-differ_self (suc n) zero le = refl
digits-differ_self (suc n) (suc a) le =
    omega (arith, digits-differ_self n (suc a / 2) (omega arith), differ_self (suc a % 2))

bit_xor-zero : (a b : ℕ) → bit_xor a b ≡ 0 → a ≡ b
bit_xor-zero a b h = digits-differ a a b (omega arith) (sym (bit_xor-bitwise a b) ∙ h)

bit_xor_self : (a : ℕ) → bit_xor a a ≡ 0
bit_xor_self a = bit_xor-bitwise a a ∙ digits-differ_self a a (omega arith)

digits-max : (n a b : ℕ) → a ≤ n → digits (λ b. b) max n a b ≡ 0 → (a ≡ 0) × (b ≡ 0)
digits-max zero a b le h = (omega arith, h)
digits-max (suc n) zero b le h = (refl, h)
digits-max (suc n) (suc a) b le h =
    let (half, rest) = digits-max n (suc a / 2) (b / 2) (omega arith) (omega (arith, h)) in
    (omega (arith, h), omega (arith, h))

bit_or-zero : (a b : ℕ) → bit_or a b ≡ 0 → (a ≡ 0) × (b ≡ 0)
bit_or-zero a b h = digits-max a a b (omega arith) (sym (bit_or-bitwise a b) ∙ h)

scan-cons :
    (x y : ℕ) (a b : List ℕ) (left i result : ℕ)
    → scan (x ∷ a) (y ∷ b) left (suc i) result ≡ scan a b left i result
unfolding scan
scan-cons x y a b zero i result = refl
scan-cons x y a b (suc left) i result =
    scan-cons x y a b left (suc i) (bit_or result (bit_xor (get_or a i 0) (get_or b i 0)))

-- an index differs only if the result does not stay zero
scan-zero :
    (a b : List ℕ) (result : ℕ)
    → length a ≡ length b
    → scan a b (length a) 0 result ≡ 0
    → (a ≡ b) × (result ≡ 0)
unfolding scan
scan-zero [] [] result size h = (refl, h)
scan-zero [] (y ∷ b) result size h = absurd (omega arith)
scan-zero (x ∷ a) [] result size h = absurd (omega arith)
scan-zero (x ∷ a) (y ∷ b) result size h =
    let (tails, none_set) =
      scan-zero a b (bit_or result (bit_xor x y)) (omega arith)
        (sym (scan-cons x y a b (length a) 0 (bit_or result (bit_xor x y))) ∙ h) in
    let (before, same) = bit_or-zero result (bit_xor x y) none_set in
    (ap (λ z. z ∷ a) (bit_xor-zero x y same) ∙ ap (λ t. y ∷ t) tails, before)

scan_self : (a : List ℕ) → scan a a (length a) 0 0 ≡ 0
unfolding scan
scan_self [] = refl
scan_self (x ∷ a) =
    scan-cons x x a a (length a) 0 (bit_or 0 (bit_xor x x))
    ∙ ap (scan a a (length a) 0) (ap (bit_or 0) (bit_xor_self x) ∙ bit_or-bitwise 0 0)
    ∙ scan_self a

eq_sound : (a b : List ℕ) → constant_time_eq a b ≡ true → a ≡ b
unfolding constant_time_eq
eq_sound a b h =
    let len = max (length a) (length b) in
    let result = scan a b len 0 0 in
    let mismatch = if length a == length b then 0 else 1 in
    let zeros = bit_or-zero result mismatch (ground arith) in
    let size : length a ≡ length b = ground (arith, zeros.1) in
    let all : len ≡ length a = omega arith in
    (scan-zero a b 0 size (ap (λ n. scan a b n 0 0) (sym all) ∙ zeros.0)).0

eq_complete : (a : List ℕ) → constant_time_eq a a ≡ true
unfolding constant_time_eq
eq_complete a =
    let all : max (length a) (length a) ≡ length a = omega arith in
    let quiet : scan a a (max (length a) (length a)) 0 0 ≡ 0 =
      ap (λ n. scan a a n 0 0) all ∙ scan_self a in
    let same : (if length a == length a then 0 else 1) ≡ 0 = ground arith in
    ap (λ r. bit_or r (if length a == length a then 0 else 1) == 0) quiet
    ∙ ap (λ r. bit_or 0 r == 0) same
    ∙ ap (λ r. r == 0) (bit_or-bitwise 0 0)

-- The constant-time comparison holds exactly of equal byte strings, those of different lengths
-- included.
pub constant_time_eq_iff : (a b : List ℕ) → (constant_time_eq a b ≡ true) ↔ (a ≡ b)
constant_time_eq_iff a b = (eq_sound a b, λ e. ap (constant_time_eq a) (sym e) ∙ eq_complete a)

-- A response is verified exactly when it is the one computed from the nonce and the key.
pub verify_response_iff :
    (hmac : List ℕ → List ℕ → List ℕ) (nonce key response : List ℕ)
    → (verify_response_with_key hmac nonce key response ≡ true)
      ↔ (response ≡ compute_response_with_key hmac nonce key)
unfolding verify_response_with_key
verify_response_iff hmac nonce key response =
    let expected = compute_response_with_key hmac nonce key in
    let iff = constant_time_eq_iff expected response in (λ h. sym (iff.0 h), λ e. iff.1 (sym e))
