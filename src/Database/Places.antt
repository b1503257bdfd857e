-- ===== src/Database/Places.antt =====
-- src/database.cpp: the bucket array after a bucket joins it and after a write, seen through the views.
use adplug.Base.{ℕ, zero, suc, ◌+◌, ◌≡◌, ◌≢◌, refl, ap, arith, ◌⊎◌, inl, inr}
use adplug.Base.{List, [], ◌∷◌, ◌++◌, length, get_elem?, set, Option, none, some}
use adplug.Base.{true, false, if◌then◌else◌}
use adplug.Database.{Key, Bucket, hit, key_eq}
use adplug.Database.Link.{}
use adplug.Database.Validity.{live_count, contents}

-- What a place of `bs ++ [f]` holds.
pub snoc_cases :
    (bs : List Bucket) (f : Bucket) (i : ℕ) (c : Bucket)
    → get_elem? (bs ++ (f ∷ [])) i ≡ some c
    → (get_elem? bs i ≡ some c) ⊎ ((i ≡ length bs) × (c ≡ f))
snoc_cases [] f zero c e = inr (refl, cc)
snoc_cases [] f (suc i) c e = cc
snoc_cases (b ∷ bs) f zero c e = inl e
snoc_cases (b ∷ bs) f (suc i) c e = elim (snoc_cases bs f i c e) [
  | inl old ↦ inl old
  | inr (p, q) ↦ inr (ap suc p, q)
]

-- What a place of an array after a write holds.
pub set_cases :
    (bs : List Bucket) (t : ℕ) (v : Bucket) (i : ℕ) (c : Bucket)
    → get_elem? (set bs t v) i ≡ some c
    → ((i ≡ t) × (c ≡ v)) ⊎ ((i ≢ t) × (get_elem? bs i ≡ some c))
set_cases [] t v i c e = cc
set_cases (b ∷ bs) zero v zero c e = inl (refl, cc)
set_cases (b ∷ bs) zero v (suc i) c e = inr ((λ p. absurd (omega arith)), e)
set_cases (b ∷ bs) (suc t) v zero c e = inr ((λ p. absurd (omega arith)), e)
set_cases (b ∷ bs) (suc t) v (suc i) c e = elim (set_cases bs t v i c e) [
  | inl (p, q) ↦ inl (ap suc p, q)
  | inr (ne, old) ↦ inr ((λ p. ne (omega arith)), old)
]

pub contents-snoc :
    (bs : List Bucket) (f : Bucket) (key : Key)
    → contents bs key ≡ none
    → contents (bs ++ (f ∷ [])) key ≡ (if hit key f then some f.rec else none)
unfolding contents
contents-snoc [] f key e = refl
contents-snoc (b ∷ bs) f key e = ground (arith, contents-snoc bs f key)

pub contents-snoc_old :
    (bs : List Bucket) (f : Bucket) (key : Key)
    → hit key f ≡ false
    → contents (bs ++ (f ∷ [])) key ≡ contents bs key
unfolding contents
contents-snoc_old [] f key e = rw e
contents-snoc_old (b ∷ bs) f key e = rw (contents-snoc_old bs f key e)

pub contents-set_chain :
    (bs : List Bucket) (t : ℕ) (b : Bucket) (p : Option ℕ) (key : Key)
    → get_elem? bs t ≡ some b
    → contents (set bs t (record b { chain = p })) key ≡ contents bs key
unfolding contents hit
contents-set_chain [] t b p key e = refl
contents-set_chain (x ∷ bs) zero b p key e = let same : x ≡ b = cc in rw same
contents-set_chain (x ∷ bs) (suc t) b p key e = rw (contents-set_chain bs t b p key e)

pub live_count-snoc :
    (bs : List Bucket) (f : Bucket)
    → f.deleted ≡ false
    → live_count (bs ++ (f ∷ [])) ≡ live_count bs + 1
live_count-snoc [] f e = rw e
live_count-snoc (b ∷ bs) f e = omega (arith, live_count-snoc bs f e)

pub live_count-set_chain :
    (bs : List Bucket) (t : ℕ) (b : Bucket) (p : Option ℕ)
    → get_elem? bs t ≡ some b
    → live_count (set bs t (record b { chain = p })) ≡ live_count bs
live_count-set_chain [] t b p e = refl
live_count-set_chain (x ∷ bs) zero b p e = let same : x ≡ b = cc in rw same
live_count-set_chain (x ∷ bs) (suc t) b p e = rw (live_count-set_chain bs t b p e)

pub key_eq→eq : (a b : Key) → key_eq a b ≡ true → a ≡ b
unfolding key_eq
key_eq→eq a b h = ground arith

pub key_eq_refl : (a : Key) → key_eq a a ≡ true
unfolding key_eq
key_eq_refl a = ground arith
