-- ===== src/Database/Files/Reads.antt =====
-- src/database.cpp: `CRecord::factory` reads the bytes of a record.
use adplug.Base.{ℕ, ◌%◌, ◌^◌, ◌<◌, ◌≡◌, refl, ap, ◌∙◌, arith}
use adplug.Base.{List, [], ◌++◌, some}
use adplug.Base.Stream.{BinIo}
use adplug.Base.Output.{Delivers, int_bytes}
use adplug.Database.{Own, plain, song_info, clock_speed, Record}
use adplug.Database.Files.{type_of, new_record, read_own, read_fields, read_record}
use adplug.Database.Files.Bytes.{text_bytes, own_bytes, record_size, field_bytes, record_bytes}
use adplug.Database.Files.Bytes.{IsText, OwnFits, Fits}
use mathlib.Core.List.{append_assoc}

-- The record that is made for a type, before its fields are read.
abbrev blank_of : Own → Own
blank_of plain = plain
blank_of (song_info title author) = song_info [] []
blank_of (clock_speed clock) = clock_speed 0

new_record-blank_of : (own : Own) → new_record (type_of own) ≡ some (blank_of own)
unfolding new_record
new_record-blank_of plain = refl
new_record-blank_of (song_info title author) = refl
new_record-blank_of (clock_speed clock) = refl

type_of-lt : (own : Own) → type_of own < 256
type_of-lt plain = omega arith
type_of-lt (song_info title author) = omega arith
type_of-lt (clock_speed clock) = omega arith

module _ (io : BinIo) (ahead : io.Stream → List ℕ) (delivers : Delivers io ahead) where
  -- A read gives the value `a` and leaves the bytes `rest` ahead.
  abbrev pub Gives {κ} : {A : Type κ} → A → List ℕ → A × io.Stream → Type κ
  Gives a rest x = (x.0 ≡ a) × (ahead x.1 ≡ rest)

  read_text-Gives :
      (s rest : List ℕ) (f : io.Stream)
      → IsText s
      → ahead f ≡ text_bytes s ++ rest
      → Gives s rest (io.read_string f)
  read_text-Gives s rest f text e =
      delivers.text s rest f text (e ∙ append_assoc s (int_bytes 1 0) rest)

  read_own-Gives :
      (own : Own) (rest : List ℕ) (f : io.Stream)
      → OwnFits own
      → ahead f ≡ own_bytes own ++ rest
      → Gives own rest (read_own io (blank_of own) f)
  unfolding read_own
  read_own-Gives plain rest f fits e = (refl, e)
  read_own-Gives (song_info title author) rest f (ht, ha) e =
      let more = text_bytes author ++ rest in
      let all = e ∙ append_assoc (text_bytes title) (text_bytes author) rest in
      let (t, e1) = read_text-Gives title more f ht all in
      let (a, e2) = read_text-Gives author rest (io.read_string f).1 ha e1 in (rw (t, a) refl, e2)
  read_own-Gives (clock_speed clock) rest f small e =
      let (c, e1) = delivers.single clock rest f e in
      let same : (io.read_single f).0 ≡ clock = omega (arith, c, small) in (ap clock_speed same, e1)

  read_fields-Gives :
      (rec : Record) (rest : List ℕ) (f : io.Stream)
      → Fits rec
      → ahead f ≡ field_bytes rec ++ rest
      → Gives rec rest (read_fields io (blank_of rec.own) f)
  unfolding read_fields
  read_fields-Gives rec rest f fits e =
      let own = own_bytes rec.own in
      let comment = text_bytes rec.comment in
      let filetype = text_bytes rec.filetype in
      let crc32 = int_bytes 4 rec.key.crc32 in
      let crc16 = int_bytes 2 rec.key.crc16 in
      let (f1, f2) : io.Stream × io.Stream =
        ((io.read_int 2 f).1, (io.read_int 4 (io.read_int 2 f).1).1) in
      let (f3, f4) : io.Stream × io.Stream =
        ((io.read_string f2).1, (io.read_string (io.read_string f2).1).1) in
      let (v1, e1) =
        delivers.int 2 rec.key.crc16 ((crc32 ++ (filetype ++ (comment ++ own))) ++ rest) f
          (e ∙ append_assoc crc16 (crc32 ++ (filetype ++ (comment ++ own))) rest) in
      let (v2, e2) =
        delivers.int 4 rec.key.crc32 ((filetype ++ (comment ++ own)) ++ rest) f1
          (e1 ∙ append_assoc crc32 (filetype ++ (comment ++ own)) rest) in
      let (v3, e3) =
        read_text-Gives rec.filetype ((comment ++ own) ++ rest) f2 fits.filetype
          (e2 ∙ append_assoc filetype (comment ++ own) rest) in
      let (v4, e4) =
        read_text-Gives rec.comment (own ++ rest) f3 fits.comment
          (e3 ∙ append_assoc comment own rest) in
      let (v5, e5) = read_own-Gives rec.own rest f4 fits.own e4 in
      let k1 : (io.read_int 2 f).0 % 2 ^ 16 ≡ rec.key.crc16 = omega (arith, v1, fits.crc16) in
      let k2 : (io.read_int 4 f1).0 ≡ rec.key.crc32 = omega (arith, v2, fits.crc32) in
      (rw (k1, k2, v3, v4, v5) refl, e5)

  pub read_record-Gives :
      (rec : Record) (rest : List ℕ) (f : io.Stream)
      → Fits rec
      → ahead f ≡ record_bytes rec ++ rest
      → Gives (some rec) rest (read_record io f)
  unfolding read_record
  read_record-Gives rec rest f fits e =
      let fields = field_bytes rec in
      let type = int_bytes 1 (type_of rec.own) in
      let size = int_bytes 4 (record_size rec) in
      let f1 = (io.read_int 1 f).1 in
      let (t, e1) =
        delivers.int 1 (type_of rec.own) ((size ++ fields) ++ rest) f
          (e ∙ append_assoc type (size ++ fields) rest) in
      let (_, e2) =
        delivers.int 4 (record_size rec) (fields ++ rest) f1 (e1 ∙ append_assoc size fields rest) in
      let known : new_record (io.read_int 1 f).0 ≡ some (blank_of rec.own) =
        let same : (io.read_int 1 f).0 ≡ type_of rec.own = omega (arith, t, type_of-lt rec.own) in
        ap new_record same ∙ new_record-blank_of rec.own in
      let (r, e3) = read_fields-Gives rec rest (io.read_int 4 f1).1 fits e2 in
      rw (known, read_record) (ap some r, e3)
