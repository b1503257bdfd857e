-- ===== src/Capture/Got/Load.antt =====
-- src/got.cpp: `CgotPlayer::load`. `none` is the return of false.
use adplug.Base.{ℕ, zero, suc, ◌+◌, ◌-◌, ◌/◌, ◌%◌, ◌^◌, ◌≤◌, ◌<◌, ◌≡◌, refl, ap, ◌∙◌, arith}
use adplug.Base.{List, [], ◌∷◌, length, Option, none, some, Bool, true, false, not, ◌||◌}
use adplug.Base.{◌==◌, ltb, if◌then◌else◌, Option-cases, if_both, ltb_false→le, inl, inr}
use adplug.Base.{Outcome, ok, ◌>>=◌, Returns, Returns-bind}
use adplug.Base.Opl.{Opl}
use adplug.Base.Stream.{BinIo, IsLawful}
use adplug.Provider.{Provider, extension, filesize, filesize-lt}
use adplug.Provider.{filesize-filesize, filesize-seek, filesize-read_int}
use adplug.Database.{Key, key_eq}
use adplug.Database.Crc.{make}
use adplug.Database.Crc.Ends.{IsAtEnd, make-IsAtEnd}
use adplug.Capture.Got.{Got, Event, rewind}

abbrev pub got_extension : List ℕ
got_extension = b'.' ∷ b'g' ∷ b'o' ∷ b't' ∷ []

abbrev pub menu_music : Key
menu_music = record { crc16 = 0xB627; crc32 = 0x72036C41 }

module _ (io : BinIo) where
  pub read_events : ℕ → io.Stream → List Event × io.Stream
  read_events zero f = ([], f)
  read_events (suc n) f =
      let (time, f1) = io.read_int 1 f in
      let (reg, f2) = io.read_int 1 f1 in
      let (val, f3) = io.read_int 1 f2 in
      let (events, f4) = read_events n f3 in
      (record { time = time % 2 ^ 8; reg = reg % 2 ^ 8; val = val % 2 ^ 8 } ∷ events, f4)

  pub read_song : Key → Opl → io.Stream → Got
  read_song key opl f =
      let (file_size, f1) = filesize io f in
      let size = (file_size / 3 + 2 ^ 64 - 1) % 2 ^ 64 in
      let rate = if key_eq key menu_music then 140 else 120 in
      rewind (record {
        opl = opl;
        events = (read_events size f1).0;
        size = size;
        pos = 0;
        del = 0;
        songend = false;
        rate = rate;
        timer = (rate, 1);
      })

  -- `load` behind the checks.
  pub load_song : Opl → io.Stream → Outcome (Option Got)
  load_song opl f = do
    (key, f1) ← make io (io.seek 0 f)
    ok (some (read_song key opl (io.seek 2 f1)))

  -- The four bytes at the end, whose place is there since the file has nine bytes.
  pub load_checked : Bool → Opl → io.Stream → Outcome (Option Got)
  load_checked is_got opl f =
      let (size1, f1) = filesize io f in
      let (size2, f2) = filesize io f1 in
      let (version, f3) = io.read_int 2 f2 in
      let (size3, f4) = filesize io f3 in
      let (ending, f5) = io.read_int 4 (io.seek (size3 - 4) f4) in
      if not is_got
        || not (size1 % 3 == 0)
        || ltb size2 9
        || not (version == 1)
        || not (ending == 0)
      then ok none
      else load_song opl f5

  pub load : Provider io → List ℕ → Opl → Outcome (Option Got)
  load fp filename opl = elim (fp.open_file filename) [
    | none ↦ ok none
    | some f ↦ load_checked (extension filename got_extension) opl f
  ]

-- What a loader leaves: nothing, or a song of at least one event, at its start.
abbrev pub IsLoaded : Option Got → Type 0
IsLoaded none = Unit {0}
IsLoaded (some p) =
    (length p.events ≡ p.size)
    × (0 < p.size)
    × (p.size < 2 ^ 63)
    × (p.pos ≡ 0)
    × (p.songend ≡ false)

module _ (io : BinIo) (lawful : IsLawful io) where
  length-read_events : (n : ℕ) (f : io.Stream) → length (read_events io n f).0 ≡ n
  unfolding read_events
  length-read_events zero f = refl
  length-read_events (suc n) f = ap suc (length-read_events n _)

  read_song-IsLoaded :
      (key : Key) (opl : Opl) (f : io.Stream)
      → 9 ≤ (filesize io f).0
      → IsLoaded (some (read_song io key opl f))
  unfolding read_song rewind
  read_song-IsLoaded key opl f enough =
      let small = filesize-lt io lawful f in
      (length-read_events _ _, omega (arith, enough), omega (arith, small), refl, refl)

  load_song-IsLoaded :
      (opl : Opl) (f : io.Stream) → 9 ≤ (filesize io f).0 → Returns IsLoaded (load_song io opl f)
  unfolding load_song filesize
  load_song-IsLoaded opl f enough =
      Returns-bind (IsAtEnd io lawful (io.seek 0 f)) IsLoaded (make io (io.seek 0 f)) _
        (make-IsAtEnd io lawful (io.seek 0 f))
        (λ x h.
          read_song-IsLoaded x.0 opl (io.seek 2 x.1)
            (omega (arith, enough, h.1, lawful.end-seek 2 x.1, lawful.end-seek 0 f)))

  -- The third of the checks is the one that the rest relies on.
  checked :
      (a b c d e : Bool) (opl : Opl) (f : io.Stream)
      → (c ≡ false → 9 ≤ (filesize io f).0)
      → Returns IsLoaded (if a || b || c || d || e then ok none else load_song io opl f)
  checked true b c d e opl f enough = tt
  checked false true c d e opl f enough = tt
  checked false false true d e opl f enough = tt
  checked false false false d e opl f enough =
      if_both (Returns IsLoaded) (d || e) (ok none) _ tt (load_song-IsLoaded opl f (enough refl))

  load_checked-IsLoaded :
      (is_got : Bool) (opl : Opl) (f : io.Stream) → Returns IsLoaded (load_checked io is_got opl f)
  unfolding load_checked
  load_checked-IsLoaded is_got opl f =
      let (size1, f1) = filesize io f in
      let (size2, f2) = filesize io f1 in
      let (version, f3) = io.read_int 2 f2 in
      let (size3, f4) = filesize io f3 in
      let (ending, f5) = io.read_int 4 (io.seek (size3 - 4) f4) in
      let same : (filesize io f5).0 ≡ size2 =
        filesize-read_int io lawful 4 (io.seek (size3 - 4) f4)
        ∙ filesize-seek io lawful (size3 - 4) f4
        ∙ filesize-filesize io lawful f3
        ∙ filesize-read_int io lawful 2 f2
        ∙ filesize-filesize io lawful f1 in
      checked (not is_got) (not (size1 % 3 == 0)) (ltb size2 9) (not (version == 1))
        (not (ending == 0)) opl f5 (λ e. omega (arith, same, ltb_false→le size2 9 e))

  -- For streams that keep to the laws of the library `load` ends on every file. If it accepts the file
  -- it leaves a song of at least one event, which is in its array as a whole, at its start: what
  -- playing it to its end asks for.
  pub load-IsSong :
      (fp : Provider io) (filename : List ℕ) (opl : Opl)
      → Returns IsLoaded (load io fp filename opl)
  unfolding load
  load-IsSong fp filename opl = elim (Option-cases (fp.open_file filename)) [
    | inl e ↦ rw (e, load, Returns) tt
    | inr (f, e) ↦ rw (e, load) (load_checked-IsLoaded (extension filename got_extension) opl f)
  ]
