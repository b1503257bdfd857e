-- ===== src/Base/Lists.antt =====
-- C arrays as lists measured and indexed by native numbers.
use Prim.Native.Nat.{ℕ, zero, suc, ◌+◌, ◌<◌, ◌≤◌}
use mathlib.Core.Path.{◌≡◌, refl, sym, ap, ◌∙◌}
use mathlib.Core.Logic.{◌≢◌}
use mathlib.Core.List.{List, [], ◌∷◌, ◌++◌}
use mathlib.Core.Option.{Option, none, some}
use native.Mathlib.Omega.{arith}

module _ {ℓ} {A : Type ℓ} where
  abbrev pub length : List A → ℕ
  length [] = 0
  length (x ∷ xs) = suc (length xs)

  abbrev pub get_elem? : List A → ℕ → Option A
  get_elem? [] i = none
  get_elem? (x ∷ xs) zero = some x
  get_elem? (x ∷ xs) (suc i) = get_elem? xs i

  -- A write out of bounds changes nothing.
  abbrev pub set : List A → ℕ → A → List A
  set [] i v = []
  set (x ∷ xs) zero v = v ∷ xs
  set (x ∷ xs) (suc i) v = x ∷ set xs i v

  abbrev pub replicate : ℕ → A → List A
  replicate zero a = []
  replicate (suc n) a = a ∷ replicate n a

  abbrev pub drop : ℕ → List A → List A
  drop zero xs = xs
  drop (suc n) [] = []
  drop (suc n) (x ∷ xs) = drop n xs

  pub length-append : (xs ys : List A) → length (xs ++ ys) ≡ length xs + length ys
  length-append [] ys = omega arith
  length-append (x ∷ xs) ys = omega (arith, length-append xs ys)

module _ {ℓ} {A : Type ℓ} where
  pub length-set : (xs : List A) (i : ℕ) (v : A) → length (set xs i v) ≡ length xs
  length-set [] i v = refl
  length-set (x ∷ xs) zero v = refl
  length-set (x ∷ xs) (suc i) v = ap suc (length-set xs i v)

  pub length-replicate : (n : ℕ) (a : A) → length (replicate n a) ≡ n
  length-replicate zero a = refl
  length-replicate (suc n) a = ap suc (length-replicate n a)

  pub get_elem?-set_self :
      (xs : List A) (i : ℕ) (v : A) → i < length xs → get_elem? (set xs i v) i ≡ some v
  get_elem?-set_self [] i v h = absurd (omega arith)
  get_elem?-set_self (x ∷ xs) zero v h = refl
  get_elem?-set_self (x ∷ xs) (suc i) v h = get_elem?-set_self xs i v (omega arith)

  pub get_elem?-set_ne :
      (xs : List A) (i j : ℕ) (v : A) → i ≢ j → get_elem? (set xs i v) j ≡ get_elem? xs j
  get_elem?-set_ne [] i j v h = refl
  get_elem?-set_ne (x ∷ xs) zero zero v h = absurd (h refl)
  get_elem?-set_ne (x ∷ xs) zero (suc j) v h = refl
  get_elem?-set_ne (x ∷ xs) (suc i) zero v h = refl
  get_elem?-set_ne (x ∷ xs) (suc i) (suc j) v h = get_elem?-set_ne xs i j v (λ e. h (ap suc e))

  -- A read in range returns a value.
  pub get_elem?-of_lt : (xs : List A) (i : ℕ) → i < length xs → (a : A) × (get_elem? xs i ≡ some a)
  get_elem?-of_lt [] i h = absurd (omega arith)
  get_elem?-of_lt (x ∷ xs) zero h = (x, refl)
  get_elem?-of_lt (x ∷ xs) (suc i) h = get_elem?-of_lt xs i (omega arith)

  pub lt-of_get_elem? : (xs : List A) (i : ℕ) (a : A) → get_elem? xs i ≡ some a → i < length xs
  lt-of_get_elem? [] i a h = cc
  lt-of_get_elem? (x ∷ xs) zero a h = omega arith
  lt-of_get_elem? (x ∷ xs) (suc i) a h = omega (arith, lt-of_get_elem? xs i a h)

  pub get_elem?-of_le : (xs : List A) (i : ℕ) → length xs ≤ i → get_elem? xs i ≡ none
  get_elem?-of_le [] i h = refl
  get_elem?-of_le (x ∷ xs) zero h = absurd (omega arith)
  get_elem?-of_le (x ∷ xs) (suc i) h = get_elem?-of_le xs i (omega arith)

  -- Appending one element: the old positions keep theirs, and the new one is at the end.
  pub get_elem?-snoc_lt :
      (xs : List A) (v : A) (i : ℕ) → i < length xs → get_elem? (xs ++ (v ∷ [])) i ≡ get_elem? xs i
  get_elem?-snoc_lt [] v i h = absurd (omega arith)
  get_elem?-snoc_lt (x ∷ xs) v zero h = refl
  get_elem?-snoc_lt (x ∷ xs) v (suc i) h = get_elem?-snoc_lt xs v i (omega arith)

  pub get_elem?-snoc_end : (xs : List A) (v : A) → get_elem? (xs ++ (v ∷ [])) (length xs) ≡ some v
  get_elem?-snoc_end [] v = refl
  get_elem?-snoc_end (x ∷ xs) v = get_elem?-snoc_end xs v

  -- Every element satisfies a predicate.
  abbrev pub All {κ} : (A → Type κ) → List A → Type κ
  All P [] = Unit {κ}
  All P (x ∷ xs) = P x × All P xs

  pub All-get_elem? {κ} :
      (P : A → Type κ) (xs : List A) (i : ℕ) (a : A) → All P xs → get_elem? xs i ≡ some a → P a
  All-get_elem? P [] i a h e = cc
  All-get_elem? P (x ∷ xs) zero a (h, hs) e = rw (← some_inj) h
    where
      some_inj : x ≡ a
      some_inj = cc
  All-get_elem? P (x ∷ xs) (suc i) a (h, hs) e = All-get_elem? P xs i a hs e

  pub All-set {κ} :
      (P : A → Type κ) (xs : List A) (i : ℕ) (v : A) → P v → All P xs → All P (set xs i v)
  All-set P [] i v hv h = tt
  All-set P (x ∷ xs) zero v hv (h, hs) = (hv, hs)
  All-set P (x ∷ xs) (suc i) v hv (h, hs) = (h, All-set P xs i v hv hs)

  pub All-replicate {κ} : (P : A → Type κ) (n : ℕ) (a : A) → P a → All P (replicate n a)
  All-replicate P zero a h = tt
  All-replicate P (suc n) a h = (h, All-replicate P n a h)

  -- The rest of an array from a place on begins with the element there.
  pub drop-of_get_elem? :
      (xs : List A) (i : ℕ) (a : A) → get_elem? xs i ≡ some a → drop i xs ≡ a ∷ drop (suc i) xs
  drop-of_get_elem? [] i a e = cc
  drop-of_get_elem? (x ∷ xs) zero a e = cc
  drop-of_get_elem? (x ∷ xs) (suc i) a e = drop-of_get_elem? xs i a e

  pub drop-of_le : (xs : List A) (i : ℕ) → length xs ≤ i → drop i xs ≡ []
  drop-of_le [] zero h = refl
  drop-of_le [] (suc i) h = refl
  drop-of_le (x ∷ xs) zero h = absurd (omega arith)
  drop-of_le (x ∷ xs) (suc i) h = drop-of_le xs i (omega arith)

  pub get_elem?-drop : (n i : ℕ) (xs : List A) → get_elem? (drop n xs) i ≡ get_elem? xs (n + i)
  get_elem?-drop zero i xs = let e : i ≡ 0 + i = omega arith in ap (get_elem? xs) e
  get_elem?-drop (suc n) i [] = refl
  get_elem?-drop (suc n) i (x ∷ xs) =
      let e : suc (n + i) ≡ suc n + i = omega arith in
      get_elem?-drop n i xs ∙ ap (get_elem? (x ∷ xs)) e

  pub drop-drop : (n k : ℕ) (xs : List A) → drop k (drop n xs) ≡ drop (n + k) xs
  drop-drop zero k xs = let e : k ≡ 0 + k = omega arith in ap (λ n. drop n xs) e
  drop-drop (suc n) zero [] = let e : suc n ≡ suc n + 0 = omega arith in ap (λ m. drop m []) e
  drop-drop (suc n) (suc k) [] =
      let e : suc (n + suc k) ≡ suc n + suc k = omega arith in ap (λ m. drop m []) e
  drop-drop (suc n) k (x ∷ xs) =
      let e : suc (n + k) ≡ suc n + k = omega arith in
      drop-drop n k xs ∙ ap (λ m. drop m (x ∷ xs)) e

  pub drop-append : (xs ys : List A) → drop (length xs) (xs ++ ys) ≡ ys
  drop-append [] ys = refl
  drop-append (x ∷ xs) ys = drop-append xs ys

  -- Where something is left behind a place, the place is inside of the list.
  pub length-drop :
      (n : ℕ) (xs : List A) → 0 < length (drop n xs) → n + length (drop n xs) ≡ length xs
  length-drop zero xs h = omega arith
  length-drop (suc n) [] h = absurd (omega arith)
  length-drop (suc n) (x ∷ xs) h = omega (arith, length-drop n xs h)

  pub length-drop_le : (n : ℕ) (xs : List A) → n ≤ length xs → n + length (drop n xs) ≡ length xs
  length-drop_le zero xs h = omega arith
  length-drop_le (suc n) [] h = absurd (omega arith)
  length-drop_le (suc n) (x ∷ xs) h = omega (arith, length-drop_le n xs (omega arith))

  pub get_elem?-replicate : (n i : ℕ) (a : A) → i < n → get_elem? (replicate n a) i ≡ some a
  get_elem?-replicate zero i a h = absurd (omega arith)
  get_elem?-replicate (suc n) zero a h = refl
  get_elem?-replicate (suc n) (suc i) a h = get_elem?-replicate n i a (omega arith)

  -- What stands behind a place.
  pub get_elem?-of_drop :
      (xs ys : List A) (i j : ℕ) (a : A)
      → drop i xs ≡ ys
      → get_elem? ys j ≡ some a
      → get_elem? xs (i + j) ≡ some a
  get_elem?-of_drop xs ys i j a e at =
      sym (get_elem?-drop i j xs) ∙ ap (λ zs. get_elem? zs j) e ∙ at

  pub length-of_drop : (i : ℕ) (xs : List A) → drop i xs ≡ [] → length xs ≤ i
  length-of_drop zero [] e = omega arith
  length-of_drop zero (x ∷ xs) e = cc
  length-of_drop (suc i) [] e = omega arith
  length-of_drop (suc i) (x ∷ xs) e = omega (arith, length-of_drop i xs e)
