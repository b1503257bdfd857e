-- ===== src/Database/Contract.antt =====
-- src/database.cpp: what the operations promise of the database as a finite map from keys to records.
use adplug.Base.{◌+◌, ◌≡◌, ◌≢◌, refl, ap, ◌∙◌, arith, ◌↔◌, inl, inr}
use adplug.Base.{length, get_elem?, none, some, lt-of_get_elem?}
use adplug.Base.{Bool, true, false, ◌&&◌, ◌==◌, if◌then◌else◌, Bool-cases}
use adplug.Base.{Outcome, ok, ◌>>=◌, Returns, Returns-bind}
use adplug.Database.{
  live, Key, Record, Bucket, Db, key_eq, add_bucket, insert, lookup, hash_radix, hit,
}
use adplug.Database.{wipe, wipe_current}
use adplug.Database.Places.{key_eq→eq}
use adplug.Database.Wipe.{free_bucket-IsValid, free_bucket-contents, length-free_bucket}
use adplug.Database.Insert.{Added, add_bucket-Added}
use adplug.Database.Validity.{IsValid, contents, Looks, absent, present, lookup-Looks, move-IsValid}

-- What `insert` promises for a record: `done` tells whether there was room and no record with its
-- key; the linear list grows by one bucket then, and the map has the record at its key then and is
-- as it was otherwise.
abbrev pub Inserted : Db → Record → Bool × Db → Type 0
Inserted db rec (done, db') =
    IsValid db'
    × (length db'.linear ≡ (if done then length db.linear + 1 else length db.linear))
    × ((key : Key)
        → contents db'.linear key
          ≡ (if done && key_eq rec.key key then some rec else contents db.linear key))
    × ((done ≡ true) ↔ ((length db.linear ≢ hash_radix) × (contents db.linear rec.key ≡ none)))

module _ (db : Db) (rec : Record) (v : IsValid db) where
  refused :
      (db' : Db)
      → IsValid db'
      → db'.linear ≡ db.linear
      → ((length db.linear ≢ hash_radix) → contents db.linear rec.key ≢ none)
      → Inserted db rec (false, db')
  refused db' v' same not_both = (
    v',
    ap length same,
    (λ key. ap (λ bs. contents bs key) same),
    ((λ e. absurd (cc)), (λ (space, nothing). absurd (not_both space nothing))),
  )

  insert_by :
      length db.linear ≢ hash_radix
      → (r : Outcome (Bool × Db)) → Looks db rec.key r
      → Returns (Inserted db rec) (
          r >>= λ (found, db').
          if found then ok (false, db') else (add_bucket db' rec >>= λ db''. ok (true, db'')))
  insert_by space _ (absent nothing empty) =
      Returns-bind (Added db v rec nothing (omega (arith, v.room))) (Inserted db rec)
        (add_bucket db rec) _ (add_bucket-Added db v rec nothing (omega (arith, v.room)))
        (λ db' (v', len, map). (v', len, map, ((λ _. (space, empty)), (λ _. refl))))
  insert_by space _ (present j b e found there) =
      refused (record db { linear_index = j })
        (move-IsValid db j v (lt-of_get_elem? db.linear j b e)) refl (λ _ nothing. cc)

  -- On a valid database `insert` of a record ends without a fault and keeps the invariant. It says
  -- `true` exactly when there is room and the map has no record with the key; then the map has the
  -- record at its key, and in every other respect the map is as it was.
  pub insert-Inserted : Returns (Inserted db rec) (insert db (some rec))
  unfolding insert
  insert-Inserted = elim (Bool-cases (length db.linear == hash_radix)) [
    | inl full ↦ rw (full, Returns) (refused db v refl (λ space nothing. space (ground arith)))
    | inr space ↦
        rw (space, Returns)
          (insert_by (ground arith) (lookup db rec.key) (lookup-Looks db rec.key v))
  ]

-- What `wipe` promises: the map has nothing at the key of `rec`, and is as it was otherwise.
abbrev pub Wiped : Db → Key → Db → Type 0
Wiped db gone db' =
    IsValid db'
    × (length db'.linear ≡ length db.linear)
    × ((key : Key)
        → contents db'.linear key ≡ (if key_eq gone key then none else contents db.linear key))

hit_alive : (b : Bucket) (key : Key) → b.deleted ≡ false → hit key b ≡ key_eq b.rec.key key
unfolding hit
hit_alive b key alive = ground arith

-- With the cursor at a live bucket `wipe()` takes the bucket's record out of the map.
wipe_current-Wiped :
    (db : Db) (b : Bucket) (key : Key)
    → IsValid db
    → get_elem? db.linear db.linear_index ≡ some b
    → hit key b ≡ true
    → Returns (Wiped db key) (wipe_current db)
unfolding wipe_current
wipe_current-Wiped db b key v there found =
    let alive : b.deleted ≡ false = unfold hit in ground arith in
    let in_use : (length db.linear == 0) ≡ false =
      ground (arith, lt-of_get_elem? db.linear db.linear_index b there) in
    let same : b.rec.key ≡ key = key_eq→eq b.rec.key key (unfold hit in ground arith) in
    rw (in_use, Returns)
      (rw (there, Returns)
        (
          free_bucket-IsValid db v b there alive,
          length-free_bucket db b,
          λ k. free_bucket-contents db v b there alive k ∙ rw (hit_alive b k alive, same),
        ))

module _ (db : Db) (rec : Record) (v : IsValid db) where
  wipe_by :
      (r : Outcome (Bool × Db))
      → Looks db rec.key r
      → Returns
          (Wiped db rec.key)
          (r >>= λ (found, db'). if found then wipe_current db' else ok db')
  wipe_by _ (absent nothing empty) = (
    v,
    refl,
    λ key. elim (Bool-cases (key_eq rec.key key)) [
      | inl e ↦ rw (e, ← key_eq→eq rec.key key e) empty
      | inr e ↦ rw e
    ],
  )
  wipe_by _ (present j b e found there) =
      wipe_current-Wiped (record db { linear_index = j }) b rec.key
        (move-IsValid db j v (lt-of_get_elem? db.linear j b e)) e found

  -- On a valid database `wipe` of a record that has not been freed ends without a fault and keeps the invariant, and the
  -- map is as it was but for the key of the record, where it has nothing.
  pub wipe-Wiped : Returns (Wiped db rec.key) (wipe db (live rec))
  unfolding wipe
  wipe-Wiped = wipe_by (lookup db rec.key) (lookup-Looks db rec.key v)
