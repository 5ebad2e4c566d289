-- ===== src/Prelude/Lists.antt =====
-- Lists measured and indexed by native numbers, under the library's names.
use Prim.Native.Nat.{ℕ, zero, suc, ◌+◌, ◌-◌, ◌≤◌, ◌<◌, min}
use mathlib.Core.Path.{◌≡◌, refl, ap}
use mathlib.Core.Logic.{◌≢◌}
use mathlib.Core.List.{List, [], ◌∷◌, ◌++◌, map}
use mathlib.Core.Option.{Option, none, some}
use mathlib.Core.Bool.{◌&&◌}
use native.Mathlib.Omega.{arith}
use xfr.Prelude.Tests.{◌==◌, ltb, leb, if◌then◌else◌}

module _ {ℓ} {A : Type ℓ} where
  abbrev pub length : List A → ℕ
  length [] = 0
  length (x ∷ xs) = suc (length xs)

  abbrev pub get_elem? : List A → ℕ → Option A
  get_elem? [] i = none
  get_elem? (x ∷ xs) zero = some x
  get_elem? (x ∷ xs) (suc i) = get_elem? xs i

  -- A write out of bounds changes nothing.
  abbrev pub set : List A → ℕ → A → List A
  set [] i v = []
  set (x ∷ xs) zero v = v ∷ xs
  set (x ∷ xs) (suc i) v = x ∷ set xs i v

  pub length-append : (xs ys : List A) → length (xs ++ ys) ≡ length xs + length ys
  length-append [] ys = omega arith
  length-append (x ∷ xs) ys = omega (arith, length-append xs ys)

module _ {ℓ} {A : Type ℓ} where
  pub length-set : (xs : List A) (i : ℕ) (v : A) → length (set xs i v) ≡ length xs
  length-set [] i v = refl
  length-set (x ∷ xs) zero v = refl
  length-set (x ∷ xs) (suc i) v = ap suc (length-set xs i v)

  pub get_elem?-set_self :
      (xs : List A) (i : ℕ) (v : A) → i < length xs → get_elem? (set xs i v) i ≡ some v
  get_elem?-set_self [] i v h = elim h [ ]
  get_elem?-set_self (x ∷ xs) zero v h = refl
  get_elem?-set_self (x ∷ xs) (suc i) v h = get_elem?-set_self xs i v (omega arith)

  pub get_elem?-set_ne :
      (xs : List A) {i j : ℕ} (v : A) → i ≢ j → get_elem? (set xs i v) j ≡ get_elem? xs j
  get_elem?-set_ne [] v h = refl
  get_elem?-set_ne (x ∷ xs) {i = zero} {j = zero} v h = absurd (h refl)
  get_elem?-set_ne (x ∷ xs) {i = zero} {j = suc j} v h = refl
  get_elem?-set_ne (x ∷ xs) {i = suc i} {j = zero} v h = refl
  get_elem?-set_ne (x ∷ xs) {i = suc i} {j = suc j} v h = get_elem?-set_ne xs v (λ e. h (ap suc e))

module _ {ℓ} {A : Type ℓ} where
  abbrev pub get_or : List A → ℕ → A → A
  get_or [] i d = d
  get_or (x ∷ xs) zero d = x
  get_or (x ∷ xs) (suc i) d = get_or xs i d

  abbrev pub take : ℕ → List A → List A
  take zero xs = []
  take (suc n) [] = []
  take (suc n) (x ∷ xs) = x ∷ take n xs

  abbrev pub drop : ℕ → List A → List A
  drop zero xs = xs
  drop (suc n) [] = []
  drop (suc n) (x ∷ xs) = drop n xs

  abbrev pub replicate : ℕ → A → List A
  replicate zero a = []
  replicate (suc n) a = a ∷ replicate n a

  pub take-append-drop : (n : ℕ) (xs : List A) → take n xs ++ drop n xs ≡ xs
  take-append-drop zero xs = refl
  take-append-drop (suc n) [] = refl
  take-append-drop (suc n) (x ∷ xs) = rw (take-append-drop n xs)

  pub length-take : (n : ℕ) (xs : List A) → length (take n xs) ≡ min n (length xs)
  length-take zero xs = omega arith
  length-take (suc n) [] = omega arith
  length-take (suc n) (x ∷ xs) = omega (arith, length-take n xs)

  pub length-drop : (n : ℕ) (xs : List A) → length (drop n xs) ≡ length xs - n
  length-drop zero xs = omega arith
  length-drop (suc n) [] = omega arith
  length-drop (suc n) (x ∷ xs) = omega (arith, length-drop n xs)

  pub length-replicate : (n : ℕ) (a : A) → length (replicate n a) ≡ n
  length-replicate zero a = refl
  length-replicate (suc n) a = ap suc (length-replicate n a)

  pub length-map {κ} : {B : Type κ} (xs : List A) (f : A → B) → length (map f xs) ≡ length xs
  length-map [] f = refl
  length-map (x ∷ xs) f = ap suc (length-map xs f)

-- xs[lo..hi].fill(v)
module _ {ℓ} {A : Type ℓ} where
  unfoldable pub fill_from : ℕ → List A → ℕ → ℕ → A → List A
  fill_from i [] lo hi v = []
  fill_from i (x ∷ xs) lo hi v =
      (if leb lo i && ltb i hi then v else x) ∷ fill_from (i + 1) xs lo hi v

  unfoldable pub fill_range : List A → ℕ → ℕ → A → List A
  unfolding fill_from
  fill_range xs lo hi v = fill_from 0 xs lo hi v

  length-fill_from :
      (i : ℕ) (xs : List A) (lo hi : ℕ) (v : A) → length (fill_from i xs lo hi v) ≡ length xs
  unfolding fill_from
  length-fill_from i [] lo hi v = refl
  length-fill_from i (x ∷ xs) lo hi v = ap suc (length-fill_from (i + 1) xs lo hi v)

  pub length-fill_range :
      (xs : List A) (lo hi : ℕ) (v : A) → length (fill_range xs lo hi v) ≡ length xs
  unfolding fill_range
  length-fill_range xs lo hi v = length-fill_from 0 xs lo hi v

  get_or-fill_from :
      (i : ℕ) (xs : List A) (lo hi : ℕ) (v : A) (j : ℕ) (d : A)
      → j < length xs
      → get_or (fill_from i xs lo hi v) j d
        ≡ (if leb lo (i + j) && ltb (i + j) hi then v else get_or xs j d)
  unfolding fill_from
  get_or-fill_from i [] lo hi v j d h = absurd (omega arith)
  get_or-fill_from i (x ∷ xs) lo hi v zero d h = let e : i + 0 ≡ i = omega arith in rw e refl
  get_or-fill_from i (x ∷ xs) lo hi v (suc j) d h =
      let e : i + suc j ≡ i + 1 + j = omega arith in
      rw e (get_or-fill_from (i + 1) xs lo hi v j d (omega arith))

  pub get_or-fill_range :
      (xs : List A) (lo hi : ℕ) (v : A) (j : ℕ) (d : A)
      → j < length xs
      → get_or (fill_range xs lo hi v) j d ≡ (if leb lo j && ltb j hi then v else get_or xs j d)
  unfolding fill_range
  get_or-fill_range xs lo hi v j d h =
      let e : 0 + j ≡ j = omega arith in rw e at (get_or-fill_from 0 xs lo hi v j d h)

  pub get_or-set :
      (xs : List A) (i : ℕ) (v : A) (j : ℕ) (d : A)
      → j < length xs
      → get_or (set xs i v) j d ≡ (if i == j then v else get_or xs j d)
  get_or-set [] i v j d h = absurd (omega arith)
  get_or-set (x ∷ xs) zero v zero d h = refl
  get_or-set (x ∷ xs) zero v (suc j) d h = ground arith
  get_or-set (x ∷ xs) (suc i) v zero d h = ground arith
  get_or-set (x ∷ xs) (suc i) v (suc j) d h = ground (arith, get_or-set xs i v j d)

module _ {ℓ} {A : Type ℓ} where
  pub take-append_exact : (n : ℕ) (xs ys : List A) → length xs ≡ n → take n (xs ++ ys) ≡ xs
  take-append_exact zero [] ys h = refl
  take-append_exact zero (x ∷ xs) ys h = absurd (omega arith)
  take-append_exact (suc n) [] ys h = absurd (omega arith)
  take-append_exact (suc n) (x ∷ xs) ys h =
      ap (λ rest. x ∷ rest) (take-append_exact n xs ys (omega arith))

  pub ++_assoc : (xs ys zs : List A) → (xs ++ ys) ++ zs ≡ xs ++ (ys ++ zs)
  ++_assoc [] ys zs = refl
  ++_assoc (x ∷ xs) ys zs = ap (λ l. x ∷ l) (++_assoc xs ys zs)

  pub ++_nil : (xs : List A) → xs ++ [] ≡ xs
  ++_nil [] = refl
  ++_nil (x ∷ xs) = ap (λ l. x ∷ l) (++_nil xs)

  pub drop-append_exact : (n : ℕ) (xs ys : List A) → length xs ≡ n → drop n (xs ++ ys) ≡ ys
  drop-append_exact zero [] ys h = refl
  drop-append_exact zero (x ∷ xs) ys h = absurd (omega arith)
  drop-append_exact (suc n) [] ys h = absurd (omega arith)
  drop-append_exact (suc n) (x ∷ xs) ys h = drop-append_exact n xs ys (omega arith)

  pub take-append :
      (n : ℕ) (xs ys : List A) → length xs ≤ n → take n (xs ++ ys) ≡ xs ++ take (n - length xs) ys
  take-append n [] ys h = let e : n - 0 ≡ n = omega arith in rw e refl
  take-append zero (x ∷ xs) ys h = absurd (omega arith)
  take-append (suc n) (x ∷ xs) ys h =
      let e : suc n - suc (length xs) ≡ n - length xs = omega arith in
      rw e (ap (λ rest. x ∷ rest) (take-append n xs ys (omega arith)))
