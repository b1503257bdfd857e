-- ===== src/Database/Validity.antt =====
-- src/database.cpp: the invariant of the database, and `lookup` under it.
use adplug.Base.{ℕ, zero, suc, ◌+◌, ◌≤◌, ◌<◌, ◌≡◌, refl, arith, inl, inr}
use adplug.Base.{List, [], ◌∷◌, length, get_elem?, Option, none, some}
use adplug.Base.{Bool, true, false, Bool-cases, Option-cases, Outcome, ok, ◌>>=◌, if◌then◌else◌}
use adplug.Database.{Key, Record, Bucket, Db, empty, hash_radix, make_hash, hit, scan}
use adplug.Database.{find_index, move_to, lookup}
use adplug.Database.Chain.{IsNext, AreIndexed, AreLinked, Finds, end, misses, hits}
use adplug.Database.Chain.{hash_at, scan-Finds}
use Prim.Native.Nat.{max}

abbrev pub live_count : List Bucket → ℕ
live_count [] = 0
live_count (b ∷ bs) = (if b.deleted then 0 else 1) + live_count bs

-- No two live buckets have one key.
abbrev pub AreUnique : List Bucket → Type 0
AreUnique bs =
    (key : Key) (i j : ℕ) (a b : Bucket)
    → get_elem? bs i ≡ some a
    → get_elem? bs j ≡ some b
    → hit key a ≡ true
    → hit key b ≡ true
    → i ≡ j

pub record IsValid (db : Db) : Type 0 where
  pub indexed : AreIndexed db.linear
  pub linked : AreLinked db.linear
  pub headed : (h : ℕ) → IsNext (hash_at db.linear) h 0 (db.hashed h)
  pub unique : AreUnique db.linear
  pub counted : db.linear_logic_length ≡ live_count db.linear
  pub cursor : db.linear_index < max 1 (length db.linear)
  pub room : length db.linear ≤ hash_radix

-- The database as a finite map: the record of the live bucket with the key.
unfoldable pub contents : List Bucket → Key → Option Record
contents [] key = none
contents (b ∷ bs) key = if hit key b then some b.rec else contents bs key

pub contents-none :
    (bs : List Bucket) (key : Key)
    → ((m : ℕ) (c : Bucket) → get_elem? bs m ≡ some c → hit key c ≡ false)
    → contents bs key ≡ none
unfolding contents
contents-none [] key h = refl
contents-none (b ∷ bs) key h = rw (h 0 b refl) (contents-none bs key (λ m c e. h (suc m) c e))

pub contents-some :
    (bs : List Bucket) (key : Key) (j : ℕ) (b : Bucket)
    → ((i : ℕ) (a : Bucket) → get_elem? bs i ≡ some a → hit key a ≡ true → i ≡ j)
    → get_elem? bs j ≡ some b
    → hit key b ≡ true
    → contents bs key ≡ some b.rec
unfolding contents
contents-some [] key j b only e h = cc
contents-some (x ∷ bs) key zero b only e h = let same : x ≡ b = cc in rw (same, h)
contents-some (x ∷ bs) key (suc j) b only e h = elim (Bool-cases (hit key x)) [
  | inl found ↦ absurd (omega (arith, only 0 x refl found))
  | inr no_hit ↦
      rw no_hit (contents-some bs key j b (λ i a ei ha. omega (arith, only (suc i) a ei ha)) e h)
]

-- The two ends of a lookup: the cursor moves only where the key is found.
pub data Looks (db : Db) (key : Key) : Outcome (Bool × Db) → Type 0 where
  absent :
      ((m : ℕ) (c : Bucket) → get_elem? db.linear m ≡ some c → hit key c ≡ false)
      → contents db.linear key ≡ none
      → Looks db key (ok (false, db))
  present :
      (j : ℕ) (b : Bucket)
      → get_elem? db.linear j ≡ some b
      → hit key b ≡ true
      → contents db.linear key ≡ some b.rec
      → Looks db key (ok (true, record db { linear_index = j }))

pub empty-IsValid : IsValid empty
unfolding empty
empty-IsValid = record {
  indexed = λ i b e. cc;
  linked = λ i b e. absurd (cc);
  headed = λ h. end (λ m km e. cc);
  unique = λ key i j a b ei ej ha hb. absurd (cc);
  counted = refl;
  cursor = omega arith;
  room = omega arith;
}

-- The separate test of the chain's head makes `lookup` one walk from the head on.
find_index-scan :
    (db : Db) (key : Key)
    → find_index db key ≡ scan (suc (length db.linear)) db.linear key (db.hashed (make_hash key))
unfolding find_index scan
find_index-scan db key = elim (Option-cases (db.hashed (make_hash key))) [
  | inl e ↦ rw (e, find_index)
  | inr (head, e) ↦ rw (e, find_index)
]

find_index-Finds : (db : Db) (key : Key) → IsValid db → Finds db.linear key 0 (find_index db key)
find_index-Finds db key v = rw (find_index-scan db key) (
    scan-Finds db.linear key v.indexed v.linked (suc (length db.linear)) 0 _ (omega arith)
      (v.headed (make_hash key)))

module _ (db : Db) (key : Key) (v : IsValid db) where
  move_to-Looks :
      (r : Outcome (Option ℕ))
      → Finds db.linear key 0 r
      → Looks db key (r >>= λ found. ok (move_to db found))
  unfolding move_to
  move_to-Looks _ (misses none_there) =
      let nothing : (m : ℕ) (c : Bucket) → get_elem? db.linear m ≡ some c → hit key c ≡ false =
        λ m c e. none_there m c (omega arith) e in
      absent nothing (contents-none db.linear key nothing)
  move_to-Looks _ (hits j b e h) =
      present j b e h
        (contents-some db.linear key j b (λ i a ei ha. v.unique key i j a b ei e ha h) e h)

  -- `lookup` ends without a fault, and is right about every key.
  pub lookup-Looks : Looks db key (lookup db key)
  unfolding lookup
  lookup-Looks = move_to-Looks (find_index db key) (find_index-Finds db key v)

-- The cursor may stand at any bucket.
pub move-IsValid :
    (db : Db) (i : ℕ) → IsValid db → i < length db.linear → IsValid (record db { linear_index = i })
move-IsValid db i v lt = record {
  indexed = v.indexed;
  linked = v.linked;
  headed = v.headed;
  unique = v.unique;
  counted = v.counted;
  cursor = omega arith;
  room = v.room;
}
