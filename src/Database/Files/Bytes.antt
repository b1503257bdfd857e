-- ===== src/Database/Files/Bytes.antt =====
-- src/database.cpp: what `save` writes, and that `CRecord::factory` reads it.
use adplug.Base.{ℕ, ◌+◌, ◌%◌, ◌^◌, ◌<◌, ◌≡◌, sym}
use adplug.Base.{List, [], ◌∷◌, ◌++◌, length, All}
use adplug.Base.{not, Bool-cases, inl, inr, if◌then◌else◌}
use adplug.Base.Output.{BinOut, IsFaithful, int_bytes, Writes, Writes-then}
use adplug.Database.{Own, plain, song_info, clock_speed, Record, Bucket, Db}
use adplug.Database.Files.{file_id, type_of, get_size, write_text, write_own, write_record}
use adplug.Database.Files.{write_records, save}
use mathlib.Core.List.{append-nil}

abbrev pub text_bytes : List ℕ → List ℕ
text_bytes s = s ++ int_bytes 1 0

abbrev pub own_bytes : Own → List ℕ
own_bytes plain = []
own_bytes (song_info title author) = text_bytes title ++ text_bytes author
own_bytes (clock_speed clock) = int_bytes 4 clock

abbrev pub record_size : Record → ℕ
record_size rec = (get_size rec.own + length rec.filetype + length rec.comment + 8) % 2 ^ 64

abbrev pub field_bytes : Record → List ℕ
field_bytes rec =
    int_bytes 2 rec.key.crc16
    ++ (int_bytes 4 rec.key.crc32
        ++ (text_bytes rec.filetype ++ (text_bytes rec.comment ++ own_bytes rec.own)))

abbrev pub record_bytes : Record → List ℕ
record_bytes rec =
    int_bytes 1 (type_of rec.own) ++ (int_bytes 4 (record_size rec) ++ field_bytes rec)

-- The records that are not deleted, and the bytes of a list of records.
abbrev pub live_records : List Bucket → List Record
live_records [] = []
live_records (b ∷ bs) = if b.deleted then live_records bs else b.rec ∷ live_records bs

abbrev pub records_bytes : List Record → List ℕ
records_bytes [] = []
records_bytes (r ∷ rs) = record_bytes r ++ records_bytes rs

-- What fits into the fields of a file: short enough numbers, and texts without a null.
abbrev pub IsText : List ℕ → Type 0
IsText = All (λ c. 0 < c)

abbrev pub OwnFits : Own → Type 0
OwnFits plain = Unit {0}
OwnFits (song_info title author) = IsText title × IsText author
OwnFits (clock_speed clock) = clock < 2 ^ 32

pub record Fits (rec : Record) : Type 0 where
  pub crc16 : rec.key.crc16 < 2 ^ 16
  pub crc32 : rec.key.crc32 < 2 ^ 32
  pub filetype : IsText rec.filetype
  pub comment : IsText rec.comment
  pub own : OwnFits rec.own

module _ (out : BinOut) (written : out.Out → List ℕ) (faithful : IsFaithful out written) where
  abbrev Writing : (out.Out → out.Out) → List ℕ → Type 0
  Writing = Writes out written

  nothing-Writes : Writing (λ o. o) []
  nothing-Writes o = sym (append-nil (written o))

  write_text-Writes : (s : List ℕ) → Writing (write_text out s) (text_bytes s)
  unfolding write_text
  write_text-Writes s =
      Writes-then out written (out.write_string s) (out.write_int 0 1) s (int_bytes 1 0)
        (faithful.written-string s) (faithful.written-int 0 1)

  write_own-Writes : (own : Own) → Writing (write_own out own) (own_bytes own)
  unfolding write_own
  write_own-Writes plain = nothing-Writes
  write_own-Writes (song_info title author) =
      Writes-then out written (write_text out title) (write_text out author) (text_bytes title)
        (text_bytes author) (write_text-Writes title) (write_text-Writes author)
  write_own-Writes (clock_speed clock) = faithful.written-single clock

  write_record-Writes : (rec : Record) → Writing (write_record out rec) (record_bytes rec)
  unfolding write_record
  write_record-Writes rec =
      let own = rec.own in
      let and_then = Writes-then out written in
      let last =
        and_then (write_text out rec.comment) (write_own out own) (text_bytes rec.comment)
          (own_bytes own) (write_text-Writes rec.comment) (write_own-Writes own) in
      let texts =
        and_then (write_text out rec.filetype) _ (text_bytes rec.filetype) _
          (write_text-Writes rec.filetype) last in
      let key =
        and_then (out.write_int rec.key.crc32 4) _ _ _ (faithful.written-int rec.key.crc32 4)
          texts in
      let keys =
        and_then (out.write_int rec.key.crc16 2) _ _ _ (faithful.written-int rec.key.crc16 2) key in
      let sized =
        and_then (out.write_int (record_size rec) 4) _ _ _
          (faithful.written-int (record_size rec) 4) keys in
      and_then (out.write_int (type_of own) 1) _ _ _ (faithful.written-int (type_of own) 1) sized

  write_live-Writes :
      (b : Bucket)
      → Writing
          (λ o. if not b.deleted then write_record out b.rec o else o)
          (if b.deleted then [] else record_bytes b.rec)
  write_live-Writes b = elim (Bool-cases b.deleted) [
    | inl e ↦ rw e nothing-Writes
    | inr e ↦ rw e (write_record-Writes b.rec)
  ]

  records-live :
      (b : Bucket) (bs : List Bucket)
      → records_bytes (live_records (b ∷ bs))
        ≡ (if b.deleted then [] else record_bytes b.rec) ++ records_bytes (live_records bs)
  records-live b bs = elim (Bool-cases b.deleted) [ inl e ↦ rw e | inr e ↦ rw e ]

  write_records-Writes :
      (bs : List Bucket) → Writing (write_records out bs) (records_bytes (live_records bs))
  unfolding write_records
  write_records-Writes [] = nothing-Writes
  write_records-Writes (b ∷ bs) = rw (records-live b bs) (
      Writes-then out written _ (write_records out bs) _ (records_bytes (live_records bs))
        (write_live-Writes b) (write_records-Writes bs))

  -- `save` writes the name of the format, the number of records and the records.
  pub save-Writes :
      (db : Db)
      → Writing
          (λ o. (save out db o).1)
          (file_id
            ++ (int_bytes 4 db.linear_logic_length ++ records_bytes (live_records db.linear)))
  unfolding save
  save-Writes db =
      let rest =
        Writes-then out written (out.write_int db.linear_logic_length 4)
          (write_records out db.linear) (int_bytes 4 db.linear_logic_length)
          (records_bytes (live_records db.linear)) (faithful.written-int db.linear_logic_length 4)
          (write_records-Writes db.linear) in
      Writes-then out written (out.write_string file_id) _ file_id _
        (faithful.written-string file_id) rest
