-- ===== src/Database/Chain.antt =====
-- src/database.cpp: what the hash chains of a bucket array are, and the walk of `lookup` along one.
use adplug.Base.{ℕ, zero, suc, ◌+◌, ◌≤◌, ◌<◌, ◌≡◌, ◌≢◌, arith, inl, inr}
use adplug.Base.{List, length, get_elem?, Option, none, some, lt-of_get_elem?}
use adplug.Base.{true, false, Bool-cases, Option-cases, order_cases, Outcome, ok}
use adplug.Database.{Key, Bucket, key_eq, make_hash, hit, scan}

abbrev pub hash_of : Bucket → ℕ
hash_of b = make_hash b.rec.key

abbrev pub hash_of? : Option Bucket → Option ℕ
hash_of? none = none
hash_of? (some b) = some (hash_of b)

abbrev pub hash_at : List Bucket → ℕ → Option ℕ
hash_at bs i = hash_of? (get_elem? bs i)

-- `p` points to the first place at `k` or behind with the hash `h`, in an array with the hashes `hs`.
pub data IsNext (hs : ℕ → Option ℕ) (h k : ℕ) : Option ℕ → Type 0 where
  end : ((m : ℕ) → k ≤ m → hs m ≢ some h) → IsNext hs h k none
  at :
      (j : ℕ)
      → k ≤ j
      → hs j ≡ some h
      → ((m : ℕ) → k ≤ m → m < j → hs m ≢ some h)
      → IsNext hs h k (some j)

-- Each bucket carries its own place.
abbrev pub AreIndexed : List Bucket → Type 0
AreIndexed bs = (i : ℕ) (b : Bucket) → get_elem? bs i ≡ some b → b.index ≡ i

-- Each bucket's chain goes on at the next bucket with its hash.
abbrev pub AreLinked : List Bucket → Type 0
AreLinked bs =
    (i : ℕ) (b : Bucket) → get_elem? bs i ≡ some b → IsNext (hash_at bs) (hash_of b) (i + 1) b.chain

-- What a search from place `k` on must come to: a live bucket with the key, or that there is none.
pub data Finds (bs : List Bucket) (key : Key) (k : ℕ) : Outcome (Option ℕ) → Type 0 where
  misses :
      ((m : ℕ) (c : Bucket) → k ≤ m → get_elem? bs m ≡ some c → hit key c ≡ false)
      → Finds bs key k (ok none)
  hits :
      (j : ℕ) (b : Bucket)
      → get_elem? bs j ≡ some b
      → hit key b ≡ true
      → Finds bs key k (ok (some j))

key_eq-hash : (a b : Key) → key_eq a b ≡ true → make_hash a ≡ make_hash b
unfolding key_eq make_hash
key_eq-hash a b h = ground arith

pub hit-hash : (key : Key) (b : Bucket) → hit key b ≡ true → hash_of b ≡ make_hash key
unfolding hit
hit-hash key b h = key_eq-hash b.rec.key key (ground arith)

-- A bucket with another hash than the key's is not the one that is looked for.
pub hit_other_hash :
    (bs : List Bucket) (key : Key) (m : ℕ) (c : Bucket)
    → hash_at bs m ≢ some (make_hash key)
    → get_elem? bs m ≡ some c
    → hit key c ≡ false
hit_other_hash bs key m c other e = elim (Bool-cases (hit key c)) [
  | inl found ↦ absurd (other (rw e (cc (hit-hash key c found))))
  | inr no_hit ↦ no_hit
]

-- A place with a hash holds a bucket with it.
pub bucket_at :
    (bs : List Bucket) (j h : ℕ)
    → hash_at bs j ≡ some h
    → (b : Bucket) × (get_elem? bs j ≡ some b) × (hash_of b ≡ h)
bucket_at bs j h e = elim (Option-cases (get_elem? bs j)) [
  | inl nothing ↦ absurd (cc (rw nothing at e))
  | inr (b, eb) ↦ (b, eb, cc (rw eb at e))
]

-- Nothing is missed at the places that a chain skips.
skip :
    (bs : List Bucket) (key : Key) (k j : ℕ) (b : Bucket)
    → ((m : ℕ) → k ≤ m → m < j → hash_at bs m ≢ some (make_hash key))
    → get_elem? bs j ≡ some b
    → hit key b ≡ false
    → (r : Outcome (Option ℕ)) → Finds bs key (j + 1) r
    → Finds bs key k r
skip bs key k j b gap e no_hit _ (misses none_behind) = misses λ m c km em. elim (order_cases m j) [
  | inl before ↦ hit_other_hash bs key m c (gap m km before) em
  | inr (inl same) ↦ rw (← unique m c same em) no_hit
  | inr (inr behind) ↦ none_behind m c (omega arith) em
]
  where
    unique : (m : ℕ) (c : Bucket) → m ≡ j → get_elem? bs m ≡ some c → b ≡ c
    unique m c same em = cc
skip bs key k j b gap e no_hit _ (hits i c ei hc) = hits i c ei hc

module _ (bs : List Bucket) (key : Key) (indexed : AreIndexed bs) (linked : AreLinked bs) where
  -- With fuel for the places that are left the walk ends, and finds what there is.
  pub scan-Finds :
      (fuel k : ℕ) (p : Option ℕ)
      → length bs ≤ k + fuel
      → IsNext (hash_at bs) (make_hash key) k p
      → Finds bs key k (scan fuel bs key p)
  unfolding scan
  scan-Finds fuel k none room (end nothing) =
      misses (λ m c km em. hit_other_hash bs key m c (nothing m km) em)
  scan-Finds zero k _ room (at j kj e gap) =
      let (b, eb, h) = bucket_at bs j _ e in absurd (omega (arith, lt-of_get_elem? bs j b eb))
  scan-Finds (suc fuel) k _ room (at j kj e gap) =
      let (b, eb, h) = bucket_at bs j _ e in
      let rest = scan-Finds fuel (j + 1) b.chain (omega arith) (rw h at (linked j b eb)) in
      rw eb (elim (Bool-cases (hit key b)) [
        | inl found ↦ rw (found, indexed j b eb) (hits j b eb found)
        | inr no_hit ↦ rw no_hit (skip bs key k j b gap eb no_hit _ rest)
      ])
