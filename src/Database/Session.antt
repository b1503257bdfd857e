-- ===== src/Database/Session.antt =====
-- src/database.cpp: sequences of calls of the database's methods, from a new database on.
use adplug.Base.{◌≡◌, ◌≢◌, refl, arith}
use adplug.Base.{List, [], ◌∷◌, length, Option, none, some, lt-of_get_elem?}
use adplug.Base.{length-set, get_elem?-set_self}
use adplug.Base.{Bool, true, false, ◌==◌, if◌then◌else◌}
use adplug.Base.{Outcome, ok, ◌>>=◌, Returns}
use adplug.Database.{Key, Record, Db, Pointer, null, live, dangling}
use adplug.Database.{
  insert, wipe, wipe_current, lookup, search, get_record, go_forward, go_backward,
}
use adplug.Database.{goto_begin, goto_end, free_bucket, point_to, hit}
use adplug.Database.Validity.{IsValid, contents, move-IsValid}
use adplug.Database.Validity.{Looks, absent, present, lookup-Looks}

-- The public methods that work on the database in memory.
pub data Call : Type 0 where
  insert_call : Option Record → Call
  wipe_call : Pointer → Call
  wipe_current_call : Call
  lookup_call : Key → Call
  search_call : Key → Call
  get_record_call : Call
  forward backward begin finish : Call

pub step : Db → Call → Outcome Db
step db (insert_call r) = do (_, db') ← insert db r; ok db'
step db (wipe_call p) = wipe db p
step db wipe_current_call = wipe_current db
step db (lookup_call key) = do (_, db') ← lookup db key; ok db'
step db (search_call key) = do (_, db') ← search db key; ok db'
step db get_record_call = do p ← get_record db; ok db
step db forward = ok (go_forward db).1
step db backward = ok (go_backward db).1
step db begin = ok (goto_begin db)
step db finish = ok (goto_end db)

-- `wipe` gets a record that has not been freed; no other method follows a pointer of the caller.
abbrev pub IsLive : Pointer → Type 0
IsLive null = ⊥
IsLive (live rec) = Unit {0}
IsLive dangling = ⊥

abbrev pub Allowed : Call → Type 0
Allowed (wipe_call p) = IsLive p
Allowed _ = Unit {0}

pub session : Db → List Call → Outcome Db
session db [] = ok db
session db (c ∷ cs) = do db' ← step db c; session db' cs

-- `search` answers as the map does: a pointer to the record at the key, or null; it leaves the
-- records alone.
abbrev pub Searched : Db → Key → Pointer × Db → Type 0
Searched db key (p, db') =
    IsValid db'
    × (db'.linear ≡ db.linear)
    × (p ≡ elim (contents db.linear key) [ none ↦ null | some r ↦ live r ])

search_by :
    (db : Db) (key : Key) (r : Outcome (Bool × Db))
    → IsValid db
    → Looks db key r
    → Returns (Searched db key) (
        r >>= λ (found, db').
        if found then (get_record db' >>= λ p. ok (p, db')) else ok (null, db'))
unfolding get_record point_to
search_by db key _ v (absent _ nothing) = (v, refl, rw nothing)
search_by db key _ v (present j b e found there) =
    let used : (length db.linear == 0) ≡ false = ground (arith, lt-of_get_elem? db.linear j b e) in
    let alive : b.deleted ≡ false = unfold hit in ground arith in
    rw (used, Returns)
      (rw (e, Returns)
        (move-IsValid db j v (lt-of_get_elem? db.linear j b e), refl, rw there (simp alive)))

-- On a valid database `search` ends without a fault, keeps the invariant and the buckets, and
-- returns the record that the map has at the key, or null where it has none.
pub search-Searched : (db : Db) (key : Key) → IsValid db → Returns (Searched db key) (search db key)
unfolding search
search-Searched db key v = search_by db key (lookup db key) v (lookup-Looks db key v)

-- After `wipe` of a record that the database holds, the cursor stays at its bucket, and `get_record`
-- hands out the pointer to the record that was freed.
pub wipe-get_record_dangling :
    (db : Db) (rec : Record)
    → IsValid db
    → contents db.linear rec.key ≢ none
    → (wipe db (live rec) >>= get_record) ≡ ok dangling
unfolding wipe
wipe-get_record_dangling db rec v held = dangling_by (lookup db rec.key) (lookup-Looks db rec.key v)
  where
    dangling_by :
        (r : Outcome (Bool × Db))
        → Looks db rec.key r
        → ((r >>= λ (found, db'). if found then wipe_current db' else ok db') >>= get_record)
          ≡ ok dangling
    dangling_by _ (absent _ nothing) = absurd (held nothing)
    dangling_by _ (present j b e found there) =
        unfold wipe_current get_record free_bucket point_to in
        let used : (length db.linear == 0) ≡ false =
          ground (arith, lt-of_get_elem? db.linear j b e) in
        let alive : b.deleted ≡ false = unfold hit in ground arith in
        rw used (
          rw e (
            simp (
              alive,
              length-set,
              used,
              get_elem?-set_self db.linear j (record b { deleted = true })
                  (lt-of_get_elem? db.linear j b e),
            )))
