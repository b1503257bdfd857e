-- ===== src/Sixdepack/Paths.antt =====
-- src/sixdepack.cpp: the way from a node of the tree up to its root, and how long it can be.
use adplug.Base.{ℕ, zero, suc, ◌-◌, ◌≤◌, ◌<◌, ◌≡◌, ◌≢◌, refl, ap, arith, ◌==◌}
use adplug.Base.{if◌then◌else◌}

-- `x` comes to the root after `n` steps, and no sooner.
abbrev pub Climbs : (ℕ → ℕ) → ℕ → ℕ → Type 0
Climbs dad zero x = x ≡ 1
Climbs dad (suc n) x = (x ≢ 1) × Climbs dad n (dad x)

pub Climbs-unique : (dad : ℕ → ℕ) (n m x : ℕ) → Climbs dad n x → Climbs dad m x → n ≡ m
Climbs-unique dad zero zero x c d = refl
Climbs-unique dad zero (suc m) x c d = absurd (d.0 c)
Climbs-unique dad (suc n) zero x c d = absurd (c.0 d)
Climbs-unique dad (suc n) (suc m) x c d = ap suc (Climbs-unique dad n m (dad x) c.1 d.1)

unfoldable pub up : (ℕ → ℕ) → ℕ → ℕ → ℕ
up dad zero x = x
up dad (suc k) x = up dad k (dad x)

up-Climbs : (dad : ℕ → ℕ) (n k x : ℕ) → k ≤ n → Climbs dad n x → Climbs dad (n - k) (up dad k x)
unfolding up
up-Climbs dad n zero x h c = let e : n - 0 ≡ n = omega arith in rw e c
up-Climbs dad zero (suc k) x h c = absurd (omega arith)
up-Climbs dad (suc n) (suc k) x h c =
    let e : suc n - suc k ≡ n - k = omega arith in
    rw e (up-Climbs dad n k (dad x) (omega arith) c.1)

-- Fewer than `m` values are those of at most `m` places that all differ.
abbrev Distinct : (ℕ → ℕ) → ℕ → Type 0
Distinct f n = (j k : ℕ) → j < k → k < n → f j ≢ f k

-- Where the last place takes over from the one with the value `m`.
moved-lt :
    (m n : ℕ) (f : ℕ → ℕ)
    → ((k : ℕ) → k < suc n → f k < suc m)
    → Distinct f (suc n)
    → (k : ℕ) → k < n
    → (if f k == m then f n else f k) < m
moved-lt m n f small apart k h =
    let ne = apart k n h (omega arith) in
    let a = small k (omega arith) in let b = small n (omega arith) in ground arith

moved-Distinct :
    (m n : ℕ) (f : ℕ → ℕ) → Distinct f (suc n) → Distinct (λ k. if f k == m then f n else f k) n
moved-Distinct m n f apart j k lt h =
    let jk = apart j k lt (omega arith) in
    let jn = apart j n (omega arith) (omega arith) in
    let kn = apart k n h (omega arith) in λ e. ground arith

pigeonhole : (m n : ℕ) (f : ℕ → ℕ) → ((k : ℕ) → k < n → f k < m) → Distinct f n → n ≤ m
pigeonhole zero zero f small apart = omega arith
pigeonhole zero (suc n) f small apart = absurd (omega (arith, small 0 (omega arith)))
pigeonhole (suc m) zero f small apart = omega arith
pigeonhole (suc m) (suc n) f small apart =
    let g = λ (k : ℕ). if f k == m then f n else f k in
    let less : n ≤ m = pigeonhole m n g (moved-lt m n f small apart) (moved-Distinct m n f apart) in
    omega arith

-- On the way up from a node there is no node twice, and so no more than there are inner nodes.
pub Climbs-le :
    (dad : ℕ → ℕ) (m n x : ℕ)
    → ((k : ℕ) → k < n → (1 ≤ up dad (suc k) x) × (up dad (suc k) x ≤ m))
    → Climbs dad n x
    → n ≤ m
unfolding up
Climbs-le dad m n x inside c =
    pigeonhole m n (λ k. up dad (suc k) x - 1)
      (λ k h. omega (arith, (inside k h).0, (inside k h).1))
      (λ j k lt h e.
        let same : up dad (suc j) x ≡ up dad (suc k) x =
          omega (arith, (inside j (omega arith)).0, (inside k h).0) in
        let from_j = up-Climbs dad n (suc j) x (omega arith) c in
        let from_k = up-Climbs dad n (suc k) x (omega arith) c in
        let met : Climbs dad (n - suc k) (up dad (suc j) x) = rw same from_k in
        let equal = Climbs-unique dad (n - suc j) (n - suc k) (up dad (suc j) x) from_j met in
        absurd (omega arith))
