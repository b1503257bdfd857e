-- ===== src/Database/Refinement.antt =====
-- src/database.cpp: the database as an abstract map of bounded size, whatever the hash table does.
use adplug.Base.{ℕ, ◌+◌, ◌≡◌}
use adplug.Base.{List, [], ◌∷◌, length, Option, none, some}
use adplug.Base.{◌==◌, if◌then◌else◌}
use adplug.Base.{Outcome, ok, ◌>>=◌}
use adplug.Database.{Key, Record, Db, hash_radix}
use adplug.Database.{insert, wipe, key_eq, live}
use adplug.Database.Validity.{IsValid, contents}

-- The abstract database: a finite map, and how many records were ever put into it.
pub record Map : Type 0 where
  pub find : Key → Option Record
  pub used : ℕ

pub data Edit : Type 0 where
  put : Record → Edit
  remove : Record → Edit

abbrev pub new_map : Map
new_map = record { find = λ key. none; used = 0 }

-- A record joins where there is room and its key is free. Removing does not give room back.
pub apply : Map → Edit → Map
apply m (put rec) = elim (m.find rec.key) [
  | some old ↦ m
  | none ↦ if m.used == hash_radix then m else (record m {
    find = λ key. if key_eq rec.key key then some rec else m.find key;
    used = m.used + 1;
  })
]
apply m (remove rec) = record m { find = λ key. if key_eq rec.key key then none else m.find key }

pub apply_all : Map → List Edit → Map
apply_all m [] = m
apply_all m (e ∷ es) = apply_all (apply m e) es

-- The same edits by the methods of the database.
pub edit : Db → Edit → Outcome Db
edit db (put rec) = do (_, db') ← insert db (some rec); ok db'
edit db (remove rec) = wipe db (live rec)

pub edit_all : Db → List Edit → Outcome Db
edit_all db [] = ok db
edit_all db (e ∷ es) = do db' ← edit db e; edit_all db' es

-- The database stands for the map.
pub record Refines (m : Map) (db : Db) : Type 0 where
  pub valid : IsValid db
  pub size : length db.linear ≡ m.used
  pub agrees : (key : Key) → contents db.linear key ≡ m.find key
