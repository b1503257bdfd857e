-- ===== src/Capture/Imf/Load/Song.antt =====
-- src/imf.cpp: what `load` accepts is a song that can be played.
use adplug.Base.{ℕ, zero, suc, ◌+◌, ◌-◌, ◌/◌, ◌≤◌, ◌<◌, ◌^◌, ◌≡◌, refl, ap, arith}
use adplug.Base.{List, length, Option, none, some, true, false, ◌&&◌}
use adplug.Base.{◌*◌, ◌==◌, ltb, leb, if◌then◌else◌, Bool-cases, Option-cases, inl, inr}
use adplug.Base.{Returns, Returns-bind}
use adplug.Base.Bits.{bit_and-3}
use adplug.Base.Opl.{Opl}
use adplug.Base.Stream.{BinIo, IsLawful}
use adplug.Provider.{Provider, filesize, filesize-lt}
use adplug.Database.{Db, Record, Pointer, null, live, search, Key}
use adplug.Database.Crc.{make}
use adplug.Database.Crc.Ends.{make-Returns}
use adplug.Database.Validity.{IsValid as IsValidDb, contents}
use adplug.Database.Session.{Searched, search-Searched}
use adplug.Capture.Imf.{Imf, Rate, rewind}
use adplug.Capture.Imf.Load.{read_song, finish, blank}
use adplug.Capture.Imf.Load.{song_length, fits, read_events, muse_footer, read_footer, getrate}
use adplug.Capture.Imf.Load.{is_muse, load_song, load, clock_at, read_header}
use adplug.Capture.Imf.Playback.{IsValid}

-- A song length that the check lets through is that of one event at least.
fits-ge :
    (file_size hdr_size len_size stored : ℕ)
    → file_size < 2 ^ 63
    → fits file_size
        (hdr_size + (song_length file_size hdr_size len_size stored).1)
        (song_length file_size hdr_size len_size stored).0
      ≡ true
    → 4 ≤ (song_length file_size hdr_size len_size stored).0
unfolding fits song_length
fits-ge file_size hdr_size len_size stored small h = ground (arith, bit_and-3 stored)

-- What a loader leaves: nothing, or a song that is valid and at its start.
abbrev pub IsLoaded : Option (Imf × Option Db) → Type 0
IsLoaded none = Unit {0}
IsLoaded (some (p, db)) = IsValid p × (p.pos ≡ 0) × (p.songend ≡ false)

abbrev pub IsValidDb? : Option Db → Type 0
IsValidDb? none = Unit {0}
IsValidDb? (some db) = IsValidDb db

rewind-IsLoaded :
    (p : Imf) (db : Option Db)
    → length p.events ≡ p.size
    → 0 < p.size
    → IsLoaded (some (rewind p, db))
unfolding rewind
rewind-IsLoaded p db there some_event =
    (record { all_there = there; in_song = some_event }, refl, refl)

-- The song's events, which the footer and the rate leave alone.
abbrev HasSong : ℕ → Imf → Type 0
HasSong n p = (length p.events ≡ n) × (p.size ≡ n)

muse_footer-HasSong :
    (n footerlen : ℕ) (text : List ℕ) (p : Imf)
    → HasSong n p
    → HasSong n (muse_footer footerlen text p)
unfolding muse_footer
muse_footer-HasSong n footerlen text p h = elim (Bool-cases (is_muse footerlen text p)) [
  | inl e ↦ simp e h
  | inr e ↦ simp e h
]

clock_by :
    (o : Option Record) (p : Pointer)
    → p ≡ elim o [ none ↦ null | some r ↦ live r ]
    → Returns (λ (c : Option Rate). Unit {0}) (clock_at p)
unfolding clock_at
clock_by none p e = rw (e, clock_at, Returns) tt
clock_by (some r) p e = rw (e, clock_at, Returns) tt

module _ (io : BinIo) (fp : Provider io) where
  length-read_events : (n : ℕ) (f : io.Stream) → length (read_events io fp n f).0 ≡ n
  unfolding read_events
  length-read_events zero f = refl
  length-read_events (suc n) f = ap suc (length-read_events n _)

  read_footer-HasSong :
      (n footerlen : ℕ) (f : io.Stream) (p : Imf)
      → HasSong n p
      → HasSong n (read_footer io fp footerlen f p).0
  unfolding read_footer
  read_footer-HasSong n footerlen f p h =
      elim (Bool-cases ((io.read_int 1 f).0 == 0x1a && leb footerlen (1 + 3 * 256 + 9))) [
        | inl e ↦ simp e h
        | inr e ↦ simp e (muse_footer-HasSong n footerlen _ p h)
      ]

  module _ (lawful : IsLawful io) where
    clock_at-Returns :
        (db : Db) (key : Key) (x : Pointer × Db)
        → Searched db key x
        → Returns (λ (c : Option Rate). Unit {0}) (clock_at x.0)
    clock_at-Returns db key (p, db') (v, same, answer) = clock_by (contents db.linear key) p answer

    getrate-Returns :
        (db : Option Db) (filename : List ℕ) (f : io.Stream)
        → IsValidDb? db
        → Returns
            (λ (x : Rate × Option Db × io.Stream). IsValidDb? x.1)
            (getrate io fp db filename f)
    unfolding getrate
    getrate-Returns none filename f v = tt
    getrate-Returns (some db) filename f v =
        Returns-bind _ _ (make io (io.seek 0 f)) _ (make-Returns io lawful (io.seek 0 f))
          (λ (key, f1) _.
            Returns-bind (Searched db key) _ (search db key) _ (search-Searched db key v)
              (λ (found, db') s.
                Returns-bind _ _ (clock_at found) _ (clock_at-Returns db key (found, db') s)
                  (λ c _. s.0)))

    read_song-HasSong :
        (file_size hdr_size song_size : ℕ) (p : Imf) (f : io.Stream)
        → HasSong (song_size / 4) (read_song io fp file_size hdr_size song_size p f).0
    unfolding read_song
    read_song-HasSong file_size hdr_size song_size p f =
        elim (Bool-cases (ltb song_size (file_size - hdr_size))) [
          | inl e ↦ simp e (
              read_footer-HasSong (song_size / 4) (file_size - hdr_size - song_size) _ _
                (length-read_events (song_size / 4) f, refl))
          | inr e ↦ simp e (length-read_events (song_size / 4) f, refl)
        ]

    finish-IsLoaded :
        (db : Option Db) (filename : List ℕ) (n : ℕ) (x : Imf × io.Stream)
        → IsValidDb? db
        → 0 < n
        → HasSong n x.0
        → Returns IsLoaded (finish io fp db filename x)
    unfolding finish
    finish-IsLoaded db filename n (p, f) v pos song =
        Returns-bind _ IsLoaded (getrate io fp db filename f) _ (getrate-Returns db filename f v)
          (λ (rate, db', f') _.
            rewind-IsLoaded (record p { rate = rate }) db' (omega arith) (omega arith))

    load_song-IsLoaded :
        (db : Option Db) (filename : List ℕ) (hdr_size : ℕ) (p : Imf) (f : io.Stream)
        → IsValidDb? db
        → Returns IsLoaded (load_song io fp db filename hdr_size p f)
    unfolding load_song
    load_song-IsLoaded db filename hdr_size p f v =
        let (file_size, f1) = filesize io f in
        let len_size : ℕ = if hdr_size == 0 then 2 else 4 in
        let (stored, f2) = io.read_int len_size f1 in
        let (song_size, len_size') = song_length file_size hdr_size len_size stored in
        elim (Bool-cases (fits file_size (hdr_size + len_size') song_size)) [
          | inl e ↦ simp e (
              finish-IsLoaded db filename (song_size / 4) _ v
                (omega
                  (arith, fits-ge file_size hdr_size len_size stored (filesize-lt io lawful f) e))
                (read_song-HasSong file_size (hdr_size + len_size') song_size p _))
          | inr e ↦ simp e tt
        ]

    -- For streams that keep to the laws `load` ends without a fault, whatever the file holds and
    -- with any valid database. If it accepts the file the player is at the start of a song with at
    -- least one event, whose event array is as long as its size says.
    pub load-IsLoaded :
        (db : Option Db) (filename : List ℕ) (opl : Opl)
        → IsValidDb? db
        → Returns IsLoaded (load io fp db filename opl)
    unfolding load
    load-IsLoaded db filename opl v = elim (Option-cases (fp.open_file filename)) [
      | inl e ↦ rw (e, load, Returns) tt
      | inr (f, e) ↦
          rw (e, load)
            (elim (Option-cases (read_header io fp filename f (blank opl))) [
              | inl e' ↦ rw (e', Returns) tt
              | inr ((hdr_size, p, f'), e') ↦ rw e' (load_song-IsLoaded db filename hdr_size p f' v)
            ])
    ]
