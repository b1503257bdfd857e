-- ===== src/Capture/Imf/Load.antt =====
-- src/imf.cpp: `CimfPlayer::load` and `getrate`. `none` is the return of false, after which the
-- caller deletes the player; closing the stream has no effect that a caller sees.
pub mod Song
use adplug.Base.{ℕ, zero, suc, ◌+◌, ◌-◌, ◌*◌, ◌/◌, ◌%◌, ◌≤◌, ◌<◌, ◌^◌, bit_and, List, [], ◌∷◌, ◌++◌}
use adplug.Base.{
  drop, length, get_elem?, set, Option, none, some, Bool, true, false, not, ◌&&◌, ◌||◌,
}
use adplug.Base.{◌==◌, ltb, leb, if◌then◌else◌, Outcome, ok, fault, stuck, ◌>>=◌, deref}
use adplug.Base.Opl.{Opl}
use adplug.Base.Stream.{BinIo}
use adplug.Provider.{Provider, extension, filesize}
use adplug.Database.{Db, Record, Own, clock_speed, Pointer, live, null, dangling, search, Key}
use adplug.Database.Crc.{make}
use adplug.Capture.Imf.{Imf, Event, Rate, hz, database_clock, rewind, c_string}

abbrev imf_ext : List ℕ
imf_ext = 0x2e ∷ 0x69 ∷ 0x6d ∷ 0x66 ∷ []

abbrev wlf_ext : List ℕ
wlf_ext = 0x2e ∷ 0x77 ∷ 0x6c ∷ 0x66 ∷ []

-- `memcmp(header, "ADLIB", 5) == 0`
pub is_adlib : List ℕ → Bool
is_adlib (a ∷ b ∷ c ∷ d ∷ e ∷ rest) = a == 0x41 && b == 0x44 && c == 0x4c && d == 0x49 && e == 0x42
is_adlib _ = false

-- The player as its constructor and the fields that `load` does not set leave it.
abbrev pub blank : Opl → Imf
blank opl = record {
  opl = opl;
  events = [];
  size = 0;
  pos = 0;
  del = 0;
  songend = false;
  rate = hz 0;
  timer = (hz 0, 1);
  track_name = [];
  game_name = [];
  author_name = [];
  remarks = [];
  footer = none;
}

-- The rate that a record of the database gives.
pub clock_of : Own → Option Rate
clock_of (clock_speed c) = some (database_clock c)
clock_of _ = none

-- `record && record->type == ClockSpeed`; a freed record must not be read.
pub clock_at : Pointer → Outcome (Option Rate)
clock_at null = ok none
clock_at (live r) = ok (clock_of r.own)
clock_at dangling = fault

pub default_rate : List ℕ → Rate
default_rate filename =
    if extension filename imf_ext
    then hz 560
    else if extension filename wlf_ext
    then hz 700
    else hz 700

-- The length of the song data in bytes and the size of the length field, with the bytes that the
-- header takes; `file_size` is that of the whole file.
pub song_length : ℕ → ℕ → ℕ → ℕ → ℕ × ℕ
song_length file_size hdr_size len_size song_size =
    let raw = (file_size + 2 ^ 64 - hdr_size) % 2 ^ 64 in
    if song_size == 0
    then ((if bit_and raw 2 == 0 then raw else (raw + 2) % 2 ^ 64), 0)
    else (song_size, len_size)

-- The validity check, false where the file is refused.
pub fits : ℕ → ℕ → ℕ → Bool
fits file_size hdr_size song_size = not (
    ltb file_size (hdr_size + 4)
    || not (bit_and song_size 3 == 0)
    || (ltb (file_size - hdr_size) song_size && not (song_size == file_size + 2 - hdr_size)))

pub is_null : Option ℕ → Bool
is_null none = false
is_null (some c) = c == 0

pub is_empty : List ℕ → Bool
is_empty [] = true
is_empty (c ∷ cs) = false

-- Two fields of a footer of 88 bytes end with a null, so it is taken for a tag of Muse.
pub is_muse : ℕ → List ℕ → Imf → Bool
is_muse footerlen text p =
    footerlen == 88
    && is_null (get_elem? text 17)
    && is_null (get_elem? text 81)
    && is_empty p.track_name

pub muse_footer : ℕ → List ℕ → Imf → Imf
muse_footer footerlen text p =
    if is_muse footerlen text p
    then (record p {
      track_name = c_string (drop 2 text);
      remarks = c_string (drop 18 text);
      footer = none;
    })
    else (record p { footer = some text })

module _ (io : BinIo) (fp : Provider io) where
  -- The header, if there is one, gives the names and where it ends.
  pub read_header : List ℕ → io.Stream → Imf → Option (ℕ × Imf × io.Stream)
  read_header filename f p =
      let (header, f1) = io.read_buffer 5 f in
      let (version, f2) = io.read_int 1 f1 in
      if not (is_adlib header) || not (version == 1)
      then (if not (extension filename imf_ext) && not (extension filename wlf_ext)
          then none
          else some (0, p, io.seek 0 f2))
      else (let (track, f3) = io.read_string f2 in
          let (game, f4) = io.read_string f3 in
          let f5 = io.ignore 1 f4 in
          some (io.pos f5, record p { track_name = track; game_name = game }, f5))

  pub read_events : ℕ → io.Stream → List Event × io.Stream
  read_events zero f = ([], f)
  read_events (suc n) f =
      let (reg, f1) = io.read_int 1 f in
      let (val, f2) = io.read_int 1 f1 in
      let (time, f3) = io.read_int 2 f2 in
      let (es, f4) = read_events n f3 in
      (record { reg = reg % 2 ^ 8; val = val % 2 ^ 8; time = time % 2 ^ 16 } ∷ es, f4)

  pub read_footer : ℕ → io.Stream → Imf → Imf × io.Stream
  read_footer footerlen f p =
      let (signature, f1) = io.read_int 1 f in
      if signature == 0x1a && leb footerlen (1 + 3 * 256 + 9)
      then (let (track, f2) = io.read_string f1 in
          let (author, f3) = io.read_string f2 in
          let (remarks, f4) = io.read_string f3 in
          (record p { track_name = track; author_name = author; remarks = remarks }, f4))
      else (let (text, f2) = io.read_buffer footerlen f1 in
          (muse_footer footerlen (set (signature ∷ text) footerlen 0) p, f2))

  pub getrate : Option Db → List ℕ → io.Stream → Outcome (Rate × Option Db × io.Stream)
  getrate none filename f = ok (default_rate filename, none, f)
  getrate (some db) filename f = do
    (key, f1) ← make io (io.seek 0 f)
    (found, db') ← search db key
    clock ← clock_at found
    ok (elim clock [ none ↦ default_rate filename | some c ↦ c ], some db', f1)

  -- The song data and the footer, if any is left behind it.
  pub read_song : ℕ → ℕ → ℕ → Imf → io.Stream → Imf × io.Stream
  read_song file_size hdr_size song_size p f =
      let size = song_size / 4 in
      let (events, f1) = read_events size f in
      let p' = record p { size = size; events = events } in
      if ltb song_size (file_size - hdr_size)
      then read_footer (file_size - hdr_size - song_size) f1 p'
      else (p', f1)

  -- What is left to do once the song is read.
  pub finish : Option Db → List ℕ → Imf × io.Stream → Outcome (Option (Imf × Option Db))
  finish db filename (p, f) = do
    (rate, db', f') ← getrate db filename f
    ok (some (rewind (record p { rate = rate }), db'))

  pub load_song : Option Db → List ℕ → ℕ → Imf → io.Stream → Outcome (Option (Imf × Option Db))
  load_song db filename hdr_size p f =
      let (file_size, f1) = filesize io f in
      let len_size = if hdr_size == 0 then 2 else 4 in
      let (stored, f2) = io.read_int len_size f1 in
      let f3 = if stored == 0 then io.seek_back len_size f2 else f2 in
      let (song_size, len_size') = song_length file_size hdr_size len_size stored in
      let hdr_size' = hdr_size + len_size' in
      if fits file_size hdr_size' song_size
      then finish db filename (read_song file_size hdr_size' song_size p f3)
      else ok none

  pub load : Option Db → List ℕ → Opl → Outcome (Option (Imf × Option Db))
  load db filename opl = elim (fp.open_file filename) [
    | none ↦ ok none
    | some f ↦ elim (read_header filename f (blank opl)) [
      | none ↦ ok none
      | some (hdr_size, p, f') ↦ load_song db filename hdr_size p f'
    ]
  ]
