-- ===== src/Database/Files.antt =====
-- src/database.cpp: reading and writing database files, `load` and `save`, and the records in them.
pub mod Bytes
pub mod Reads
pub mod Find
pub mod RoundTrip
use adplug.Base.{ℕ, zero, suc, ◌+◌, ◌%◌, ◌^◌, List, [], ◌∷◌, length, Option, none, some}
use adplug.Base.{Bool, true, false, not, ◌==◌, if◌then◌else◌, Outcome, ok, ◌>>=◌}
use adplug.Base.Stream.{BinIo, same_bytes}
use adplug.Base.Output.{BinOut}
use adplug.Database.{Own, plain, song_info, clock_speed, Record, Bucket, Db, insert}

-- `DB_FILEID_V10`
abbrev pub file_id : List ℕ
file_id =
    b'A' ∷ b'd' ∷ b'P' ∷ b'l' ∷ b'u' ∷ b'g' ∷ b' ' ∷ b'M' ∷ b'o' ∷ b'd' ∷ b'u' ∷ b'l' ∷ b'e' ∷ b' '
    ∷ b'I' ∷ b'n' ∷ b'f' ∷ b'o' ∷ b'r' ∷ b'm' ∷ b'a' ∷ b't' ∷ b'i' ∷ b'o' ∷ b'n' ∷ b' ' ∷ b'D'
    ∷ b'a' ∷ b't' ∷ b'a' ∷ b'b' ∷ b'a' ∷ b's' ∷ b'e' ∷ b' ' ∷ b'1' ∷ b'.' ∷ b'0' ∷ 0x10 ∷ []

-- `enum { Plain, SongInfo, ClockSpeed }`
abbrev pub type_of : Own → ℕ
type_of plain = 0
type_of (song_info title author) = 1
type_of (clock_speed clock) = 2

-- `CRecord::factory(type)`
pub new_record : ℕ → Option Own
new_record type =
    if type == 0
    then some plain
    else if type == 1
    then some (song_info [] [])
    else if type == 2
    then some (clock_speed 0)
    else none

abbrev pub get_size : Own → ℕ
get_size plain = 0
get_size (song_info title author) = length title + length author + 2
get_size (clock_speed clock) = 4

module _ (out : BinOut) where
  -- A std::string and a null behind it.
  unfoldable pub write_text : List ℕ → out.Out → out.Out
  write_text s o = out.write_int 0 1 (out.write_string s o)

  unfoldable pub write_own : Own → out.Out → out.Out
  write_own plain o = o
  write_own (song_info title author) o = write_text author (write_text title o)
  write_own (clock_speed clock) o = out.write_single clock o

  -- `CRecord::write`
  unfoldable pub write_record : Record → out.Out → out.Out
  write_record rec o =
      let o1 = out.write_int (type_of rec.own) 1 o in
      let size = get_size rec.own + length rec.filetype + length rec.comment + 8 in
      let o2 = out.write_int (size % 2 ^ 64) 4 o1 in
      let o3 = out.write_int rec.key.crc16 2 o2 in
      let o4 = out.write_int rec.key.crc32 4 o3 in
      write_own rec.own (write_text rec.comment (write_text rec.filetype o4))

  unfoldable pub write_records : List Bucket → out.Out → out.Out
  write_records [] o = o
  write_records (b ∷ bs) o = write_records bs (if not b.deleted then write_record b.rec o else o)

  unfoldable pub save : Db → out.Out → Bool × out.Out
  save db o =
      let o1 = out.write_string file_id o in
      let o2 = out.write_int db.linear_logic_length 4 o1 in (true, write_records db.linear o2)

module _ (io : BinIo) where
  pub read_own : Own → io.Stream → Own × io.Stream
  read_own plain f = (plain, f)
  read_own (song_info _ _) f =
      let (title, f1) = io.read_string f in
      let (author, f2) = io.read_string f1 in (song_info title author, f2)
  read_own (clock_speed _) f = let (clock, f1) = io.read_single f in (clock_speed clock, f1)

  pub read_fields : Own → io.Stream → Record × io.Stream
  read_fields own f =
      let (crc16, f1) = io.read_int 2 f in
      let (crc32, f2) = io.read_int 4 f1 in
      let (filetype, f3) = io.read_string f2 in
      let (comment, f4) = io.read_string f3 in
      let (own', f5) = read_own own f4 in
      (
        record {
          key = record { crc16 = crc16 % 2 ^ 16; crc32 = crc32 };
          filetype = filetype;
          comment = comment;
          own = own';
        },
        f5,
      )

  -- `CRecord::factory(in)`: a record of an unknown type is skipped.
  pub read_record : io.Stream → Option Record × io.Stream
  read_record f =
      let (type, f1) = io.read_int 1 f in
      let (size, f2) = io.read_int 4 f1 in
      elim (new_record type) [
        | none ↦ (none, io.seek_on size f2)
        | some own ↦ let (rec, f3) = read_fields own f2 in (some rec, f3)
      ]

  -- The loop of `load`. A record that is not inserted is deleted.
  pub load_records : ℕ → io.Stream → Db → Outcome (Db × io.Stream)
  load_records zero f db = ok (db, f)
  load_records (suc n) f db =
      let (rec, f1) = read_record f in do (_, db') ← insert db rec; load_records n f1 db'

  pub load : io.Stream → Db → Outcome (Bool × Db)
  load f db =
      let (id, f1) = io.read_buffer (length file_id) f in
      let (size, f2) = io.read_int 4 f1 in
      if not (same_bytes id file_id)
      then ok (false, db)
      else (do (db', _) ← load_records size f2 db; ok (true, db'))
