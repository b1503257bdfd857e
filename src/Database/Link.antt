-- ===== src/Database/Link.antt =====
-- src/database.cpp: how `insert` links a new bucket behind the last one of its chain.
use adplug.Base.{ℕ, zero, suc, ◌+◌, ◌≤◌, ◌<◌, ◌≡◌, ◌≢◌, refl, sym, ap, arith, inl, inr}
use adplug.Base.{List, [], ◌∷◌, ◌++◌, length, get_elem?, set, Option, none, some, lt-of_get_elem?}
use adplug.Base.{◌∙◌, get_elem?-snoc_lt, get_elem?-snoc_end, get_elem?-of_le, get_elem?-set_self}
use adplug.Base.{get_elem?-set_ne, length-append, order_cases, ok}
use adplug.Database.{Bucket, last_of}
use adplug.Database.Chain.{IsNext, end, at, AreLinked, hash_of, hash_of?, hash_at, bucket_at}
use mathlib.Core.Path.{fun_ext}

-- `hs'` is `hs`, which has nothing at `n` or behind, with the hash `h` added at `n`.
pub record IsAdded (hs hs' : ℕ → Option ℕ) (n h : ℕ) : Type 0 where
  pub old : (m : ℕ) → m < n → hs' m ≡ hs m
  pub fresh : hs' n ≡ some h
  pub behind : (m : ℕ) → n < m → hs' m ≡ none
  pub before : (m : ℕ) → n ≤ m → hs m ≡ none

module _ (hs hs' : ℕ → Option ℕ) (n h : ℕ) (added : IsAdded hs hs' n h) where
  below : (m k : ℕ) → hs m ≡ some k → m < n
  below m k e = elim (order_cases m n) [
    | inl lt ↦ lt
    | inr (inl same) ↦ absurd (cc (added.before m (omega arith)))
    | inr (inr gt) ↦ absurd (cc (added.before m (omega arith)))
  ]

  -- Places of another hash, and places up to `n` that are some already, stay as they are.
  kept_ne : (m k : ℕ) → k ≢ h → hs m ≢ some k → hs' m ≢ some k
  kept_ne m k ne e = elim (order_cases m n) [
    | inl lt ↦ rw (added.old m lt) e
    | inr (inl same) ↦ λ e'. ne (cc (added.fresh, ap hs' same))
    | inr (inr gt) ↦ λ e'. cc (added.behind m gt)
  ]

  pub IsNext-added_some : (g k j : ℕ) → IsNext hs g k (some j) → IsNext hs' g k (some j)
  IsNext-added_some g k _ (at j kj e gap) =
      let lt = below j g e in
      at j kj (rw (added.old j lt) e) (λ m km mj. rw (added.old m (omega arith)) (gap m km mj))

  pub IsNext-added_other : (g k : ℕ) (p : Option ℕ) → g ≢ h → IsNext hs g k p → IsNext hs' g k p
  IsNext-added_other g k _ ne (at j kj e gap) = IsNext-added_some g k j (at j kj e gap)
  IsNext-added_other g k _ ne (end nothing) = end (λ m km. kept_ne m g ne (nothing m km))

  -- The end of the chain of `h` becomes a pointer to `n`.
  pub IsNext-added_end : (k : ℕ) → k ≤ n → IsNext hs h k none → IsNext hs' h k (some n)
  IsNext-added_end k kn (end nothing) =
      at n kn added.fresh (λ m km mn. rw (added.old m mn) (nothing m km))

  pub IsNext-added_behind : (g : ℕ) → IsNext hs' g (n + 1) none
  IsNext-added_behind g = end (λ m km e. cc (added.behind m (omega arith)))

-- A bucket that joins at the end.
pub IsAdded-snoc :
    (bs : List Bucket) (b : Bucket)
    → IsAdded (hash_at bs) (hash_at (bs ++ (b ∷ []))) (length bs) (hash_of b)
IsAdded-snoc bs b = record {
  old = λ m lt. ap hash_of? (get_elem?-snoc_lt bs b m lt);
  fresh = ap hash_of? (get_elem?-snoc_end bs b);
  behind = λ m gt.
      ap hash_of? (get_elem?-of_le (bs ++ (b ∷ [])) m (omega (arith, length-append bs (b ∷ []))));
  before = λ m le. ap hash_of? (get_elem?-of_le bs m le);
}

-- A write that keeps the hash of its place keeps all hashes.
pub hash_at-set :
    (bs : List Bucket) (i : ℕ) (a b : Bucket)
    → get_elem? bs i ≡ some a
    → hash_of b ≡ hash_of a
    → hash_at (set bs i b) ≡ hash_at bs
hash_at-set bs i a b e same = fun_ext λ m. elim (order_cases i m) [
  | inl lt ↦ ap hash_of? (get_elem?-set_ne bs i m b (λ p. absurd (omega arith)))
  | inr (inl eq) ↦ rw (← eq, get_elem?-set_self bs i b (lt-of_get_elem? bs i a e), e) (ap some same)
  | inr (inr gt) ↦ ap hash_of? (get_elem?-set_ne bs i m b (λ p. absurd (omega arith)))
]

-- `IsLast bs h t b`: the bucket `b` at `t` ends the chain of `h`.
pub record IsLast (bs : List Bucket) (h t : ℕ) (b : Bucket) : Type 0 where
  pub there : get_elem? bs t ≡ some b
  pub same_hash : hash_of b ≡ h
  pub ends : b.chain ≡ none

-- The walk of `last_of` with `fuel` over `bs'` from `i` comes to the last bucket of a chain of `bs`.
abbrev pub EndsFrom : List Bucket → List Bucket → ℕ → ℕ → ℕ → Type 0
EndsFrom bs bs' h fuel i = (t : ℕ) × (b : Bucket) × (last_of fuel bs' i ≡ ok t) × IsLast bs h t b

last_of-step :
    (bs bs' : List Bucket) (h fuel i : ℕ) (b : Bucket)
    → ((j : ℕ) → i < j → hash_at bs j ≡ some h → EndsFrom bs bs' h fuel j)
    → get_elem? bs i ≡ some b
    → get_elem? bs' i ≡ some b
    → hash_of b ≡ h
    → (p : Option ℕ) → b.chain ≡ p
    → IsNext (hash_at bs) h (i + 1) p
    → EndsFrom bs bs' h (suc fuel) i
unfolding last_of
last_of-step bs bs' h fuel i b ih eb eb' hb _ ep (end nothing) =
    (i, b, rw (eb', ep), record { there = eb; same_hash = hb; ends = ep })
last_of-step bs bs' h fuel i b ih eb eb' hb _ ep (at j kj ej gap) =
    let (t, c, r, last) = ih j (omega arith) ej in (t, c, rw (eb', ep) r, last)

-- On an array that goes on behind `bs`, the walk along a chain of `bs` ends at its last bucket.
pub last_of-EndsFrom :
    (bs : List Bucket) (f : Bucket) (h : ℕ)
    → AreLinked bs
    → (fuel i : ℕ) → length bs < i + fuel
    → hash_at bs i ≡ some h
    → EndsFrom bs (bs ++ (f ∷ [])) h fuel i
last_of-EndsFrom bs f h linked zero i room e =
    let (b, eb, _) = bucket_at bs i h e in absurd (omega (arith, lt-of_get_elem? bs i b eb))
last_of-EndsFrom bs f h linked (suc fuel) i room e =
    let (b, eb, hb) = bucket_at bs i h e in
    let eb' : get_elem? (bs ++ (f ∷ [])) i ≡ some b =
      get_elem?-snoc_lt bs f i (lt-of_get_elem? bs i b eb) ∙ eb in
    last_of-step bs (bs ++ (f ∷ [])) h fuel i b
      (λ j ij ej. last_of-EndsFrom bs f h linked fuel j (omega arith) ej) eb eb' hb b.chain refl
      (rw hb at (linked i b eb))

-- The pointer at the end of a chain: nothing with the hash stands behind.
pub IsNext-none : (hs : ℕ → Option ℕ) (g k m : ℕ) → IsNext hs g k none → k ≤ m → hs m ≢ some g
IsNext-none hs g k m (end nothing) km = nothing m km

pub hash_at-get :
    (bs : List Bucket) (i : ℕ) (b : Bucket)
    → get_elem? bs i ≡ some b
    → hash_at bs i ≡ some (hash_of b)
hash_at-get bs i b e = rw e

-- One place alone ends the chain of a hash.
pub end_unique :
    (bs : List Bucket) (i t : ℕ) (c b : Bucket)
    → AreLinked bs
    → get_elem? bs i ≡ some c
    → get_elem? bs t ≡ some b
    → c.chain ≡ none
    → b.chain ≡ none
    → hash_of c ≡ hash_of b
    → i ≡ t
end_unique bs i t c b linked ei et ec eb same = elim (order_cases i t) [
  | inl lt ↦ absurd (
      IsNext-none (hash_at bs) (hash_of c) (i + 1) t (rw ec at (linked i c ei)) (omega arith)
        (hash_at-get bs t b et ∙ ap some (sym same)))
  | inr (inl eq) ↦ eq
  | inr (inr gt) ↦ absurd (
      IsNext-none (hash_at bs) (hash_of b) (t + 1) i (rw eb at (linked t b et)) (omega arith)
        (hash_at-get bs i c ei ∙ ap some same))
]
