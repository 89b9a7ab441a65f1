-- ===== src/Prelude/Lists.antt =====
-- C arrays as lists with native indices.
use Prim.Native.Nat.{ℕ, zero, suc, ◌+◌, ◌-◌, ◌≤◌, ◌<◌, min}
use mathlib.Core.Path.{◌≡◌, refl, ap, ◌∙◌}
use mathlib.Core.List.{List, [], ◌∷◌, ◌++◌}
use native.Mathlib.Omega.{arith}

module _ {ℓ} {A : Type ℓ} where
  abbrev pub length : List A → ℕ
  length [] = 0
  length (x ∷ xs) = suc (length xs)

  abbrev pub get_or : List A → ℕ → A → A
  get_or [] i d = d
  get_or (x ∷ xs) zero d = x
  get_or (x ∷ xs) (suc i) d = get_or xs i d

  -- A write out of bounds changes nothing.
  abbrev pub set : List A → ℕ → A → List A
  set [] i v = []
  set (x ∷ xs) zero v = v ∷ xs
  set (x ∷ xs) (suc i) v = x ∷ set xs i v

  abbrev pub take : ℕ → List A → List A
  take zero xs = []
  take (suc n) [] = []
  take (suc n) (x ∷ xs) = x ∷ take n xs

  abbrev pub drop : ℕ → List A → List A
  drop zero xs = xs
  drop (suc n) [] = []
  drop (suc n) (x ∷ xs) = drop n xs

  abbrev pub replicate : ℕ → A → List A
  replicate zero a = []
  replicate (suc n) a = a ∷ replicate n a

  -- `memcpy(dst + i, src, length src)`; a byte that would land past the end of `dst` is not
  -- written.
  abbrev pub memcpy : List A → ℕ → List A → List A
  memcpy [] i src = []
  memcpy (x ∷ dst) (suc i) src = x ∷ memcpy dst i src
  memcpy (x ∷ dst) zero [] = x ∷ dst
  memcpy (x ∷ dst) zero (y ∷ src) = y ∷ memcpy dst zero src

module _ {ℓ} {A : Type ℓ} where
  pub length-append : (xs ys : List A) → length (xs ++ ys) ≡ length xs + length ys
  length-append [] ys = omega arith
  length-append (x ∷ xs) ys = omega (arith, length-append xs ys)

  pub length-take : (n : ℕ) (xs : List A) → length (take n xs) ≡ min n (length xs)
  length-take zero xs = omega arith
  length-take (suc n) [] = omega arith
  length-take (suc n) (x ∷ xs) = omega (arith, length-take n xs)

  pub length-drop : (n : ℕ) (xs : List A) → length (drop n xs) ≡ length xs - n
  length-drop zero xs = omega arith
  length-drop (suc n) [] = omega arith
  length-drop (suc n) (x ∷ xs) = omega (arith, length-drop n xs)

  pub length-replicate : (n : ℕ) (a : A) → length (replicate n a) ≡ n
  length-replicate zero a = refl
  length-replicate (suc n) a = ap suc (length-replicate n a)

  pub length-set : (xs : List A) (i : ℕ) (v : A) → length (set xs i v) ≡ length xs
  length-set [] i v = refl
  length-set (x ∷ xs) zero v = refl
  length-set (x ∷ xs) (suc i) v = ap suc (length-set xs i v)

  pub length-memcpy : (dst : List A) (i : ℕ) (src : List A) → length (memcpy dst i src) ≡ length dst
  length-memcpy [] i src = refl
  length-memcpy (x ∷ dst) (suc i) src = ap suc (length-memcpy dst i src)
  length-memcpy (x ∷ dst) zero [] = refl
  length-memcpy (x ∷ dst) zero (y ∷ src) = ap suc (length-memcpy dst zero src)

  pub take-append-drop : (n : ℕ) (xs : List A) → take n xs ++ drop n xs ≡ xs
  take-append-drop zero xs = refl
  take-append-drop (suc n) [] = refl
  take-append-drop (suc n) (x ∷ xs) = ap (λ t. x ∷ t) (take-append-drop n xs)

  pub take_all : (n : ℕ) (xs : List A) → length xs ≤ n → take n xs ≡ xs
  take_all zero [] h = refl
  take_all zero (x ∷ xs) h = absurd (omega arith)
  take_all (suc n) [] h = refl
  take_all (suc n) (x ∷ xs) h = ap (λ t. x ∷ t) (take_all n xs (omega arith))

  pub take-take : (m n : ℕ) (xs : List A) → m ≤ n → take m (take n xs) ≡ take m xs
  take-take zero n xs h = refl
  take-take (suc m) zero xs h = absurd (omega arith)
  take-take (suc m) (suc n) [] h = refl
  take-take (suc m) (suc n) (x ∷ xs) h = ap (λ t. x ∷ t) (take-take m n xs (omega arith))

  -- What stands before `i` is left alone.
  pub take-memcpy_before :
      (n : ℕ) (dst : List A) (i : ℕ) (src : List A) → n ≤ i → take n (memcpy dst i src) ≡ take n dst
  take-memcpy_before zero dst i src h = refl
  take-memcpy_before (suc n) [] i src h = refl
  take-memcpy_before (suc n) (x ∷ dst) zero src h = absurd (omega arith)
  take-memcpy_before (suc n) (x ∷ dst) (suc i) src h =
      ap (λ t. x ∷ t) (take-memcpy_before n dst i src (omega arith))

  -- The bytes up to the end of a copy that fits.
  pub take-memcpy :
      (n : ℕ) (dst : List A) (i : ℕ) (src : List A)
      → n ≡ i + length src
      → n ≤ length dst
      → take n (memcpy dst i src) ≡ take i dst ++ src
  take-memcpy zero dst zero [] e h = refl
  take-memcpy zero dst zero (y ∷ src) e h = absurd (omega arith)
  take-memcpy zero dst (suc i) src e h = absurd (omega arith)
  take-memcpy (suc n) [] i src e h = absurd (omega arith)
  take-memcpy (suc n) (x ∷ dst) (suc i) src e h =
      ap (λ t. x ∷ t) (take-memcpy n dst i src (omega arith) (omega arith))
  take-memcpy (suc n) (x ∷ dst) zero [] e h = absurd (omega arith)
  take-memcpy (suc n) (x ∷ dst) zero (y ∷ src) e h =
      ap (λ t. y ∷ t) (take-memcpy n dst zero src (omega arith) (omega arith))

  -- The bytes up to a place inside a copy.
  pub take-memcpy_inside :
      (n k : ℕ) (dst : List A) (i : ℕ) (src : List A)
      → n ≡ i + k
      → k ≤ length src
      → n ≤ length dst
      → take n (memcpy dst i src) ≡ take i dst ++ take k src
  take-memcpy_inside zero zero dst zero src e h fits = refl
  take-memcpy_inside zero (suc k) dst zero src e h fits = absurd (omega arith)
  take-memcpy_inside zero k dst (suc i) src e h fits = absurd (omega arith)
  take-memcpy_inside (suc n) k [] i src e h fits = absurd (omega arith)
  take-memcpy_inside (suc n) k (x ∷ dst) (suc i) src e h fits =
      ap (λ t. x ∷ t) (take-memcpy_inside n k dst i src (omega arith) h (omega arith))
  take-memcpy_inside (suc n) zero (x ∷ dst) zero src e h fits = absurd (omega arith)
  take-memcpy_inside (suc n) (suc k) (x ∷ dst) zero [] e h fits = absurd (omega arith)
  take-memcpy_inside (suc n) (suc k) (x ∷ dst) zero (y ∷ src) e h fits =
      ap (λ t. y ∷ t)
        (take-memcpy_inside n k dst zero src (omega arith) (omega arith) (omega arith))

  pub get_or-take : (n i : ℕ) (xs : List A) (d : A) → i < n → get_or (take n xs) i d ≡ get_or xs i d
  get_or-take zero i xs d h = absurd (omega arith)
  get_or-take (suc n) i [] d h = refl
  get_or-take (suc n) zero (x ∷ xs) d h = refl
  get_or-take (suc n) (suc i) (x ∷ xs) d h = get_or-take n i xs d (omega arith)

  pub take-suc_of_lt :
      (n : ℕ) (xs : List A) (d : A)
      → n < length xs
      → take (suc n) xs ≡ take n xs ++ (get_or xs n d ∷ [])
  take-suc_of_lt n [] d h = absurd (omega arith)
  take-suc_of_lt zero (x ∷ xs) d h = refl
  take-suc_of_lt (suc n) (x ∷ xs) d h = ap (λ t. x ∷ t) (take-suc_of_lt n xs d (omega arith))

  pub drop_of_lt :
      (n : ℕ) (xs : List A) (d : A) → n < length xs → drop n xs ≡ get_or xs n d ∷ drop (suc n) xs
  drop_of_lt n [] d h = absurd (omega arith)
  drop_of_lt zero (x ∷ xs) d h = refl
  drop_of_lt (suc n) (x ∷ xs) d h = drop_of_lt n xs d (omega arith)

module _ {ℓ} {A : Type ℓ} where
  pub get_or-set : (xs : List A) (i : ℕ) (v d : A) → i < length xs → get_or (set xs i v) i d ≡ v
  get_or-set [] i v d h = absurd (omega arith)
  get_or-set (x ∷ xs) zero v d h = refl
  get_or-set (x ∷ xs) (suc i) v d h = get_or-set xs i v d (omega arith)

  -- A write elsewhere, before or behind.
  pub get_or-set_below :
      (xs : List A) (i j : ℕ) (v d : A) → i < j → get_or (set xs j v) i d ≡ get_or xs i d
  get_or-set_below [] i j v d h = refl
  get_or-set_below (x ∷ xs) i zero v d h = absurd (omega arith)
  get_or-set_below (x ∷ xs) zero (suc j) v d h = refl
  get_or-set_below (x ∷ xs) (suc i) (suc j) v d h = get_or-set_below xs i j v d (omega arith)

  pub get_or-beyond : (xs : List A) (i : ℕ) (d : A) → length xs ≤ i → get_or xs i d ≡ d
  get_or-beyond [] i d h = refl
  get_or-beyond (x ∷ xs) zero d h = absurd (omega arith)
  get_or-beyond (x ∷ xs) (suc i) d h = get_or-beyond xs i d (omega arith)

  pub get_or-drop : (n i : ℕ) (xs : List A) (d : A) → get_or (drop n xs) i d ≡ get_or xs (n + i) d
  get_or-drop n i [] d = empty_drop n
    where
      empty_drop : (n : ℕ) → get_or (drop n []) i d ≡ get_or [] (n + i) d
      empty_drop zero = refl
      empty_drop (suc n) = refl
  get_or-drop zero i (x ∷ xs) d = ap (λ k. get_or (x ∷ xs) k d) {x = i} {y = 0 + i} (omega arith)
  get_or-drop (suc n) i (x ∷ xs) d =
      get_or-drop n i xs d
      ∙ ap (λ k. get_or (x ∷ xs) k d) {x = suc (n + i)} {y = suc n + i} (omega arith)

  pub get_or-append :
      (xs ys : List A) (i : ℕ) (d : A) → i < length xs → get_or (xs ++ ys) i d ≡ get_or xs i d
  get_or-append [] ys i d h = absurd (omega arith)
  get_or-append (x ∷ xs) ys zero d h = refl
  get_or-append (x ∷ xs) ys (suc i) d h = get_or-append xs ys i d (omega arith)

  pub drop-append : (n : ℕ) (xs ys : List A) → n ≤ length xs → drop n (xs ++ ys) ≡ drop n xs ++ ys
  drop-append zero xs ys h = refl
  drop-append (suc n) [] ys h = absurd (omega arith)
  drop-append (suc n) (x ∷ xs) ys h = drop-append n xs ys (omega arith)

  pub take-append : (n : ℕ) (xs ys : List A) → n ≤ length xs → take n (xs ++ ys) ≡ take n xs
  take-append zero xs ys h = refl
  take-append (suc n) [] ys h = absurd (omega arith)
  take-append (suc n) (x ∷ xs) ys h = ap (λ t. x ∷ t) (take-append n xs ys (omega arith))

  -- A write behind the first `n` cells.
  pub take-set_below : (n j : ℕ) (xs : List A) (v : A) → n ≤ j → take n (set xs j v) ≡ take n xs
  take-set_below zero j xs v h = refl
  take-set_below (suc n) j [] v h = refl
  take-set_below (suc n) zero (x ∷ xs) v h = absurd (omega arith)
  take-set_below (suc n) (suc j) (x ∷ xs) v h =
      ap (λ t. x ∷ t) (take-set_below n j xs v (omega arith))

  -- A write elsewhere.
  pub get_or-set_other :
      (xs : List A) (i j : ℕ) (v d : A) → (i ≡ j → ⊥) → get_or (set xs j v) i d ≡ get_or xs i d
  get_or-set_other [] i j v d h = refl
  get_or-set_other (x ∷ xs) zero zero v d h = absurd (h refl)
  get_or-set_other (x ∷ xs) (suc i) zero v d h = refl
  get_or-set_other (x ∷ xs) zero (suc j) v d h = refl
  get_or-set_other (x ∷ xs) (suc i) (suc j) v d h = get_or-set_other xs i j v d (λ e. h (ap suc e))

-- The `n` bytes at `o`; a byte behind the end is 0.
abbrev pub read_bytes : ℕ → List ℕ → ℕ → List ℕ
read_bytes n bytes o = take n (drop o bytes ++ replicate n 0)

pub length-read_bytes : (n : ℕ) (bytes : List ℕ) (o : ℕ) → length (read_bytes n bytes o) ≡ n
length-read_bytes n bytes o = omega (
  arith,
  length-take n (drop o bytes ++ replicate n 0),
  length-append (drop o bytes) (replicate n 0),
  length-replicate {A = ℕ} n 0,
)
