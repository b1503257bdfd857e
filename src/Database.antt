-- ===== src/Database.antt =====
-- src/database.cpp and src/database.h: the module information database, a linear array of buckets
-- with a chained hash table over it. A `DB_Bucket *` is the bucket's place in the linear array, which
-- is where `insert` puts every bucket; `linear` is the used part `db_linear[0 .. linear_length)`, so
-- `linear_length` is its length. `new` never returns null.
pub mod Crc
pub mod Chain
pub mod Validity
pub mod Link
pub mod Places
pub mod Insert
pub mod Wipe
pub mod Contract
pub mod Session
pub mod Refinement
pub mod Files
mod Tests
use adplug.Base.{ℕ, zero, suc, ◌+◌, ◌-◌, ◌%◌, ◌^◌}
use adplug.Base.{List, [], ◌∷◌, ◌++◌, length, get_elem?, set, Option, none, some}
use adplug.Base.{Bool, true, false, not, ◌&&◌, ◌==◌, ltb, if◌then◌else◌}
use adplug.Base.{Outcome, ok, fault, stuck, ◌>>=◌, deref}

pub record Key : Type 0 where
  pub crc16 : ℕ
  pub crc32 : ℕ

-- What the three subclasses of `CRecord` add. The float `clock` is its IEEE bit pattern.
pub data Own : Type 0 where
  plain : Own
  song_info : List ℕ → List ℕ → Own
  clock_speed : ℕ → Own

pub record Record : Type 0 where
  pub key : Key
  pub filetype : List ℕ
  pub comment : List ℕ
  pub own : Own

-- `rec` is freed once `deleted` is set.
pub record Bucket : Type 0 where
  pub index : ℕ
  pub deleted : Bool
  pub chain : Option ℕ
  pub rec : Record

pub record Db : Type 0 where
  pub linear : List Bucket
  pub hashed : ℕ → Option ℕ
  pub linear_index : ℕ
  pub linear_logic_length : ℕ

abbrev pub hash_radix : ℕ
hash_radix = 0xfff1

-- `CAdPlugDatabase::CAdPlugDatabase`
pub empty : Db
empty = record { linear = []; hashed = λ _. none; linear_index = 0; linear_logic_length = 0 }

pub key_eq : Key → Key → Bool
key_eq a b = a.crc16 == b.crc16 && a.crc32 == b.crc32

-- The sum is taken in a 64-bit `unsigned long`.
pub make_hash : Key → ℕ
make_hash key = (key.crc32 + key.crc16) % 2 ^ 64 % hash_radix

pub hit : Key → Bucket → Bool
hit key b = not b.deleted && key_eq b.rec.key key

-- The loop of `lookup` along a chain. The fuel bounds the buckets that are visited.
pub scan : ℕ → List Bucket → Key → Option ℕ → Outcome (Option ℕ)
scan fuel bs key none = ok none
scan zero bs key (some i) = stuck
scan (suc fuel) bs key (some i) = do
  b ← deref (get_elem? bs i)
  let rest = scan fuel bs key b.chain
  if hit key b then ok (some b.index) else rest

-- `lookup`: the head of the chain first, then the rest.
pub find_index : Db → Key → Outcome (Option ℕ)
find_index db key = elim (db.hashed (make_hash key)) [
  | none ↦ ok none
  | some head ↦ do
    b ← deref (get_elem? db.linear head)
    if hit key b then ok (some b.index) else scan (length db.linear) db.linear key b.chain
]

pub move_to : Db → Option ℕ → Bool × Db
move_to db none = (false, db)
move_to db (some i) = (true, record db { linear_index = i })

pub lookup : Db → Key → Outcome (Bool × Db)
lookup db key = do found ← find_index db key; ok (move_to db found)

-- `get_record`; `dangling` is the pointer to a record that `wipe` has freed.
pub data Pointer : Type 0 where
  null : Pointer
  live : Record → Pointer
  dangling : Pointer

pub point_to : Bucket → Pointer
point_to b = if b.deleted then dangling else live b.rec

pub get_record : Db → Outcome Pointer
get_record db =
    if length db.linear == 0
    then ok null
    else (do b ← deref (get_elem? db.linear db.linear_index); ok (point_to b))

pub search : Db → Key → Outcome (Pointer × Db)
search db key = do
  (found, db') ← lookup db key
  if found then (do p ← get_record db'; ok (p, db')) else ok (null, db')

-- `while(chain->chain) chain = chain->chain;` from the bucket at `i`.
pub last_of : ℕ → List Bucket → ℕ → Outcome ℕ
last_of zero bs i = stuck
last_of (suc fuel) bs i = do
  b ← deref (get_elem? bs i)
  elim b.chain [ none ↦ ok i | some j ↦ last_of fuel bs j ]

-- `chain->chain = bucket`
pub set_chain : List Bucket → ℕ → ℕ → Outcome (List Bucket)
set_chain bs i n = do b ← deref (get_elem? bs i); ok (set bs i (record b { chain = some n }))

pub update : (ℕ → Option ℕ) → ℕ → ℕ → ℕ → Option ℕ
update f h n k = if h == k then some n else f k

-- The second half of `insert`: the new bucket joins the linear list and its chain.
pub add_bucket : Db → Record → Outcome Db
add_bucket db rec =
    let n = length db.linear in
    let fresh : Bucket = record { index = n; deleted = false; chain = none; rec = rec } in
    let linear' = db.linear ++ (fresh ∷ []) in
    let index = make_hash rec.key in
    elim (db.hashed index) [
      | none ↦ ok (record db {
        linear = linear';
        hashed = update db.hashed index n;
        linear_logic_length = db.linear_logic_length + 1;
      })
      | some head ↦ do
        tail ← last_of (n + 1) linear' head
        linear'' ← set_chain linear' tail n
        ok (record db { linear = linear''; linear_logic_length = db.linear_logic_length + 1 })
    ]

pub insert : Db → Option Record → Outcome (Bool × Db)
insert db none = ok (false, db)
insert db (some rec) = if length db.linear == hash_radix then ok (false, db) else (do
  (found, db') ← lookup db rec.key
  if found then ok (false, db') else (do db'' ← add_bucket db' rec; ok (true, db'')))

-- `wipe()`: the record under the cursor.
pub free_bucket : Db → Bucket → Db
free_bucket db b = if b.deleted then db else (record db {
  linear = set db.linear db.linear_index (record b { deleted = true });
  linear_logic_length = (db.linear_logic_length + 2 ^ 64 - 1) % 2 ^ 64;
})

pub wipe_current : Db → Outcome Db
wipe_current db =
    if length db.linear == 0
    then ok db
    else (do b ← deref (get_elem? db.linear db.linear_index); ok (free_bucket db b))

-- `record->key`
abbrev pub key_of : Pointer → Outcome Key
key_of null = fault
key_of (live rec) = ok rec.key
key_of dangling = fault

-- `wipe(record)`
pub wipe : Db → Pointer → Outcome Db
wipe db record_ptr = do
  key ← key_of record_ptr
  (found, db') ← lookup db key
  if found then wipe_current db' else ok db'

pub go_forward : Db → Bool × Db
go_forward db =
    if ltb (db.linear_index + 1) (length db.linear)
    then (true, record db { linear_index = db.linear_index + 1 })
    else (false, db)

pub go_backward : Db → Bool × Db
go_backward db =
    if db.linear_index == 0
    then (false, db)
    else (true, record db { linear_index = db.linear_index - 1 })

pub goto_begin : Db → Db
goto_begin db = if length db.linear == 0 then db else (record db { linear_index = 0 })

pub goto_end : Db → Db
goto_end db =
    if length db.linear == 0 then db else (record db { linear_index = length db.linear - 1 })
