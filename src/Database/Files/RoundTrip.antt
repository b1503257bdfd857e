-- ===== src/Database/Files/RoundTrip.antt =====
-- src/database.cpp: `load` gives back what `save` wrote.
use adplug.Base.{ℕ, ◌+◌, ◌≤◌, ◌≡◌, ◌≢◌, refl, sym, ap, ◌∙◌, arith}
use adplug.Base.{List, [], ◌∷◌, ◌++◌, length, All, Option, none, some}
use adplug.Base.{Bool, true, false, Bool-cases, inl, inr}
use adplug.Base.{Returns, Returns-bind, Returns-map}
use adplug.Base.Stream.{BinIo, same_bytes}
use adplug.Base.Output.{BinOut, IsFaithful, Delivers, int_bytes}
use adplug.Database.{Key, Record, Db, empty, hash_radix, key_eq, insert}
use adplug.Database.Contract.{Inserted, insert-Inserted}
use adplug.Database.Places.{key_eq→eq, key_eq_refl}
use adplug.Database.Validity.{IsValid, contents, empty-IsValid}
use adplug.Database.Files.{file_id, save, read_record, load_records, load}
use adplug.Database.Files.Bytes.{record_bytes, records_bytes, live_records, Fits, save-Writes}
use adplug.Database.Files.Reads.{read_record-Gives}
use adplug.Database.Files.Find.{find, AreDistinct, contents-live_records, length-live_records}
use adplug.Database.Files.Find.{live_count-le, live_records-AreDistinct}
use mathlib.Core.List.{append_assoc}

abbrev or_else : Option Record → Option Record → Option Record
or_else none other = other
or_else (some r) other = some r

or_else-none : (o : Option Record) → or_else o none ≡ o
or_else-none none = refl
or_else-none (some r) = refl

-- The map has got the records `rs` on top of what it had.
abbrev Joined : List Record → Db → Db → Type 0
Joined rs db db' =
    IsValid db'
    × ((key : Key) → contents db'.linear key ≡ or_else (find rs key) (contents db.linear key))

-- Records that can join: they are distinct, new to the map, and there is room for them.
record CanJoin (rs : List Record) (db : Db) : Type 0 where
  valid : IsValid db
  room : length db.linear + length rs ≤ hash_radix
  distinct : AreDistinct rs
  fresh : (key : Key) (r : Record) → find rs key ≡ some r → contents db.linear key ≡ none

module _ (r : Record) (rs : List Record) (db : Db) (can : CanJoin (r ∷ rs) db) where
  can_insert : (length db.linear ≢ hash_radix) × (contents db.linear r.key ≡ none)
  can_insert =
      ((λ e. absurd (omega (arith, can.room))), can.fresh r.key r (rw (key_eq_refl r.key) refl))

  CanJoin-rest : (x : Bool × Db) → Inserted db r x → CanJoin rs x.1
  CanJoin-rest (false, db') (v, len, map, iff) = absurd (cc (iff.1 can_insert))
  CanJoin-rest (true, db') (v, len, map, iff) = record {
    valid = v;
    room = omega (arith, can.room);
    distinct = can.distinct.1;
    fresh = λ key r' e. elim (Bool-cases (key_eq r.key key)) [
      | inl same ↦
          let there : find rs r.key ≡ some r' = rw (key_eq→eq r.key key same) e in
          absurd (cc can.distinct.0)
      | inr other ↦
          let before : find (r ∷ rs) key ≡ some r' = rw other e in
          let as_before : contents db'.linear key ≡ contents db.linear key =
            map key ∙ rw other refl in
          as_before ∙ can.fresh key r' before
    ];
  }

  Joined-first :
      (x : Bool × Db) → Inserted db r x → (db' : Db) → Joined rs x.1 db' → Joined (r ∷ rs) db db'
  Joined-first (false, db1) (v, len, map, iff) db' j = absurd (cc (iff.1 can_insert))
  Joined-first (true, db1) (v, len, map, iff) db' (v', map') = (
    v',
    λ key. elim (Bool-cases (key_eq r.key key)) [
      | inl same ↦
          let none_behind : find rs key ≡ none = rw (← key_eq→eq r.key key same) can.distinct.0 in
          let joined : contents db1.linear key ≡ some r = map key ∙ rw same refl in
          rw same (map' key ∙ rw (none_behind, joined) refl)
      | inr other ↦
          let as_before : contents db1.linear key ≡ contents db.linear key =
            map key ∙ rw other refl in
          rw other (map' key ∙ ap (or_else (find rs key)) as_before)
    ],
  )

module _ (io : BinIo) (ahead : io.Stream → List ℕ) (delivers : Delivers io ahead) where
  -- The loop of `load` over the bytes of records that can join.
  load_records-Joined :
      (rs : List Record) (rest : List ℕ) (f : io.Stream) (db : Db)
      → All Fits rs
      → ahead f ≡ records_bytes rs ++ rest
      → CanJoin rs db
      → Returns (λ (x : Db × io.Stream). Joined rs db x.0) (load_records io (length rs) f db)
  unfolding load_records
  load_records-Joined [] rest f db fits e can = (can.valid, λ key. refl)
  load_records-Joined (r ∷ rs) rest f db (fit, fits) e can =
      let (same, e1) =
        read_record-Gives io ahead delivers r (records_bytes rs ++ rest) f fit
          (e ∙ append_assoc (record_bytes r) (records_bytes rs) rest) in
      let f1 = (read_record io f).1 in
      rw same (
        Returns-bind (Inserted db r) (λ (x : Db × io.Stream). Joined (r ∷ rs) db x.0)
          (insert db (some r)) _ (insert-Inserted db r can.valid)
          (λ x i.
            Returns-map (λ (y : Db × io.Stream). Joined rs x.1 y.0) _
              (load_records io (length rs) f1 x.1) (λ y j. Joined-first r rs db can x i y.0 j)
              (load_records-Joined rs rest f1 x.1 fits e1 (CanJoin-rest r rs db can x i))))

-- What a database gives back when it is loaded into a new one: all of its map.
abbrev pub Restored : Db → Bool × Db → Type 0
Restored db (done, db') =
    (done ≡ true) × IsValid db' × ((key : Key) → contents db'.linear key ≡ contents db.linear key)

file_id-same : same_bytes file_id file_id ≡ true
unfolding same_bytes
file_id-same = refl

module _ (io : BinIo) (ahead : io.Stream → List ℕ) (delivers : Delivers io ahead) (out : BinOut)
    (written : out.Out → List ℕ) (faithful : IsFaithful out written) where
  -- A valid database whose records fit into the fields of a file is saved to an empty stream: loading
  -- a stream that has the written bytes ahead, whatever follows them, into a new database ends
  -- without a fault, says true, and leaves a valid database that has the same record at every key.
  pub load-save :
      (db : Db) (o : out.Out) (rest : List ℕ) (f : io.Stream)
      → IsValid db
      → All Fits (live_records db.linear)
      → written o ≡ []
      → ahead f ≡ written (save out db o).1 ++ rest
      → Returns (Restored db) (load io f empty)
  unfolding load empty contents
  load-save db o rest f v fits new e =
      let rs = live_records db.linear in
      let size = int_bytes 4 db.linear_logic_length in
      let bytes : ahead f ≡ (file_id ++ (size ++ records_bytes rs)) ++ rest =
        e
        ∙ ap (λ w. w ++ rest) (save-Writes out written faithful db o)
        ∙ ap (λ w. (w ++ (file_id ++ (size ++ records_bytes rs))) ++ rest) new in
      let (id, e1) =
        delivers.buffer file_id ((size ++ records_bytes rs) ++ rest) f
          (bytes ∙ append_assoc file_id (size ++ records_bytes rs) rest) in
      let f1 = (io.read_buffer (length file_id) f).1 in
      let (count, e2) =
        delivers.int 4 db.linear_logic_length (records_bytes rs ++ rest) f1
          (e1 ∙ append_assoc size (records_bytes rs) rest) in
      let live : length rs ≡ db.linear_logic_length =
        length-live_records db.linear ∙ sym v.counted in
      let few = live_count-le db.linear in
      let all : (io.read_int 4 f1).0 ≡ length rs =
        omega (arith, count, live, few, v.room, v.counted) in
      let can : CanJoin rs empty = record {
        valid = empty-IsValid;
        room = omega (arith, length-live_records db.linear, few, v.room);
        distinct = live_records-AreDistinct db.linear v.unique;
        fresh = λ key r _. refl;
      } in
      rw (id, all, file_id-same)
        (Returns-bind (λ (x : Db × io.Stream). Joined rs empty x.0) (Restored db)
          (load_records io (length rs) (io.read_int 4 f1).1 empty) _
          (load_records-Joined io ahead delivers rs rest (io.read_int 4 f1).1 empty fits e2 can)
          (λ x j. (
            refl,
            j.0,
            λ key. j.1 key ∙ or_else-none (find rs key) ∙ sym (contents-live_records db.linear key),
          )))
