-- ===== src/Database/Wipe.antt =====
-- src/database.cpp: `wipe` keeps the invariant, and takes its record out of the map.
use adplug.Base.{ℕ, zero, suc, ◌+◌, ◌≤◌, ◌≡◌, ◌≢◌, refl, ap, arith, inl, inr}
use adplug.Base.{List, [], ◌∷◌, length, get_elem?, set, none, some}
use adplug.Base.{length-set}
use adplug.Base.{true, false, if◌then◌else◌, Bool-cases}
use adplug.Database.{Key, Bucket, Db, free_bucket, hit}
use adplug.Database.Chain.{AreLinked, hash_at}
use adplug.Database.Link.{hash_at-set}
use adplug.Database.Places.{set_cases}
use adplug.Database.Validity.{IsValid, contents, contents-none, live_count}

contents-set_miss :
    (bs : List Bucket) (t : ℕ) (b b' : Bucket) (key : Key)
    → get_elem? bs t ≡ some b
    → hit key b ≡ false
    → hit key b' ≡ false
    → contents (set bs t b') key ≡ contents bs key
unfolding contents
contents-set_miss [] t b b' key e h h' = refl
contents-set_miss (x ∷ bs) zero b b' key e h h' = let same : x ≡ b = cc in rw (same, h, h')
contents-set_miss (x ∷ bs) (suc t) b b' key e h h' = rw (contents-set_miss bs t b b' key e h h')

live_count-set_deleted :
    (bs : List Bucket) (t : ℕ) (b : Bucket)
    → get_elem? bs t ≡ some b
    → b.deleted ≡ false
    → live_count (set bs t (record b { deleted = true })) + 1 ≡ live_count bs
live_count-set_deleted [] t b e h = absurd (cc)
live_count-set_deleted (x ∷ bs) zero b e h = let same : x ≡ b = cc in rw (same, h) (omega arith)
live_count-set_deleted (x ∷ bs) (suc t) b e h = omega (arith, live_count-set_deleted bs t b e h)

live_count-le : (bs : List Bucket) → live_count bs ≤ length bs
live_count-le [] = omega arith
live_count-le (b ∷ bs) = ground (arith, live_count-le bs)

pub length-free_bucket :
    (db : Db) (b : Bucket) → length (free_bucket db b).linear ≡ length db.linear
unfolding free_bucket
length-free_bucket db b = elim (Bool-cases b.deleted) [
  | inl e ↦ simp e
  | inr e ↦ simp e (length-set db.linear db.linear_index (record b { deleted = true }))
]

module _ (db : Db) (v : IsValid db) (b : Bucket)
    (there : get_elem? db.linear db.linear_index ≡ some b) (alive : b.deleted ≡ false) where
  abbrev freed : Bucket
  freed = record b { deleted = true }

  abbrev wiped : List Bucket
  wiped = set db.linear db.linear_index freed

  hit-freed : (key : Key) → hit key freed ≡ false
  unfolding hit
  hit-freed key = refl

  hashes : hash_at wiped ≡ hash_at db.linear
  hashes = hash_at-set db.linear db.linear_index b freed there refl

  -- A hit after the write was one before it.
  still :
      (key : Key) (i : ℕ) (c : Bucket)
      → get_elem? wiped i ≡ some c
      → hit key c ≡ true
      → (i ≢ db.linear_index) × (get_elem? db.linear i ≡ some c)
  still key i c e found = elim (set_cases db.linear db.linear_index freed i c e) [
    | inl (p, q) ↦ absurd (cc (hit-freed key, ap (hit key) q))
    | inr (ne, old) ↦ (ne, old)
  ]

  contents-wiped :
      (key : Key) → contents wiped key ≡ (if hit key b then none else contents db.linear key)
  contents-wiped key = elim (Bool-cases (hit key b)) [
    | inl e ↦ rw e (
        contents-none wiped key (λ m c em. elim (Bool-cases (hit key c)) [
          | inl found ↦
              let (ne, old) = still key m c em found in
              absurd (ne (v.unique key m db.linear_index c b old there found e))
          | inr no_hit ↦ no_hit
        ]))
    | inr e ↦ rw e (contents-set_miss db.linear db.linear_index b freed key there e (hit-freed key))
  ]

  wiped_links : AreLinked wiped
  wiped_links i c e = rw hashes (elim (set_cases db.linear db.linear_index freed i c e) [
    | inl (p, q) ↦ rw (q, p) (v.linked db.linear_index b there)
    | inr (_, old) ↦ v.linked i c old
  ])

  pub free_bucket-IsValid : IsValid (free_bucket db b)
  unfolding free_bucket
  free_bucket-IsValid = rw alive (record {
    indexed = λ i c e. elim (set_cases db.linear db.linear_index freed i c e) [
      | inl (p, q) ↦ rw (q, p) (v.indexed db.linear_index b there)
      | inr (_, old) ↦ v.indexed i c old
    ];
    linked = wiped_links;
    headed = λ g. rw hashes (v.headed g);
    unique = λ key i j a c ei ej ha hc.
        v.unique key i j a c (still key i a ei ha).1 (still key j c ej hc).1 ha hc;
    counted = omega (
      arith,
      v.counted,
      v.room,
      live_count-le db.linear,
      live_count-set_deleted db.linear db.linear_index b there alive,
    );
    cursor = omega (arith, v.cursor, length-set db.linear db.linear_index freed);
    room = omega (arith, v.room, length-set db.linear db.linear_index freed);
  })

  pub free_bucket-contents :
      (key : Key)
      → contents (free_bucket db b).linear key
        ≡ (if hit key b then none else contents db.linear key)
  unfolding free_bucket
  free_bucket-contents key = simp alive (contents-wiped key)
