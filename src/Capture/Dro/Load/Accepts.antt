-- ===== src/Capture/Dro/Load/Accepts.antt =====
-- src/dro.cpp: what `load` accepts is a song that can be played.
use adplug.Base.{ℕ, suc, ◌+◌, ◌-◌, ◌%◌, ◌^◌, ◌≤◌, ◌<◌, ◌≡◌, refl, arith, List}
use adplug.Base.{Option, none, some, Bool, true, false, not, ◌&&◌, ◌==◌, ltb}
use adplug.Base.{if◌then◌else◌, ok, Returns, Returns-bind, if_both, Option-cases}
use adplug.Base.{Bool-cases, inl, inr, ◌⊎◌}
use adplug.Base.Opl.{Opl}
use adplug.Base.Stream.{BinIo, length-read_bytes}
use adplug.Provider.{Provider, filesize}
use adplug.Capture.Dro.{Dro, Version, dro_v0, rewind}
use adplug.Capture.Dro.Load.{blank, tag_at, behind_song, verify_length, read_data}
use adplug.Capture.Dro.Load.{load_old, load_checked, load_fields, load}
use adplug.Capture.Dro.Playback.{IsValid}

-- What a loader leaves: nothing, or a song of three bytes at least that is valid and at its start.
abbrev pub IsLoaded : Option Dro → Type 0
IsLoaded none = Unit {0}
IsLoaded (some p) = IsValid p × (p.pos ≡ 0) × (3 ≤ p.length)

module _ (io : BinIo) where
  -- A length that is verified is the song's, and of three bytes at least.
  abbrev IsVerified : ℕ → Bool × Dro × io.Stream → Type 0
  IsVerified len (true, p, f) = (p.length ≡ len) × (3 ≤ len)
  IsVerified len (false, p, f) = Unit {0}

  abbrev fits : Bool → ℕ → ℕ → Bool
  fits old len size = (size + 2 ^ 64 - (if old then 0x11 else 0x15)) % 2 ^ 64 == len

  abbrev fits_late : Bool → ℕ → ℕ → Bool
  fits_late old len size = not old && (size + 2 ^ 64 - 0x18) % 2 ^ 64 == len

  -- One call, by what it finds behind the song.
  verify_once :
      (fuel : ℕ) (old : Bool) (len size : ℕ) (f : io.Stream) (p : Dro)
      → (fits old len size ≡ false
          → fits_late old len size ≡ false
          → len < size
          → Returns (IsVerified len) (
              behind_song io
                (λ end f' p'. verify_length io fuel old len end f' p')
                old
                len
                size
                f
                p))
      → Returns (IsVerified len) (verify_length io (suc fuel) old len size f p)
  unfolding verify_length
  verify_once fuel old len size f p k = elim (Bool-cases (ltb len 3)) [
    | inl e ↦ rw (e, Returns) tt
    | inr e ↦
        let long : 3 ≤ len = ground arith in
        elim (Bool-cases (fits old len size)) [
          | inl e1 ↦ rw (e, e1, Returns) (refl, long)
          | inr e1 ↦ elim (Bool-cases (fits_late old len size)) [
            | inl e2 ↦ rw (e, e1, e2, Returns) (refl, long)
            | inr e2 ↦ elim (Bool-cases (ltb len size)) [
              | inl e3 ↦ rw (e, e1, e2, e3) (k e1 e2 (ground arith))
              | inr e3 ↦ rw (e, e1, e2, e3, Returns) tt
            ]
          ]
        ]
  ]

  -- The headers that a song with such a length field can stand behind.
  abbrev IsHeader : Bool → ℕ → Type 0
  IsHeader true header = header ≡ 0x11
  IsHeader false header = (header ≡ 0x15) ⊎ (header ≡ 0x18)

  -- The second call is for a size that fits, or that has wrapped around and does not.
  verify_twice :
      (old : Bool) (len header : ℕ) (f : io.Stream) (p : Dro)
      → IsHeader old header
      → len < 2 ^ 32
      → Returns (IsVerified len) (verify_length io 1 old len ((len + header) % 2 ^ 32) f p)
  verify_twice true len header f p h small =
      verify_once 0 true len ((len + header) % 2 ^ 32) f p (λ e1 e2 lt. absurd (ground arith))
  verify_twice false len header f p (inl h) small =
      verify_once 0 false len ((len + header) % 2 ^ 32) f p (λ e1 e2 lt. absurd (ground arith))
  verify_twice false len header f p (inr h) small =
      verify_once 0 false len ((len + header) % 2 ^ 32) f p (λ e1 e2 lt. absurd (ground arith))

  new-IsHeader :
      (old : Bool) (header : ℕ)
      → not old ≡ true
      → (header ≡ 0x15) ⊎ (header ≡ 0x18)
      → IsHeader old header
  new-IsHeader true header e h = cc
  new-IsHeader false header e h = h

  old-IsHeader : (old : Bool) → old ≡ true → IsHeader old 0x11
  old-IsHeader true e = refl
  old-IsHeader false e = cc

  tag_at-applies :
      (applies : Bool) (offset size : ℕ) (f : io.Stream) (p : Dro)
      → (tag_at io applies offset size f p).0 ≡ true
      → applies ≡ true
  unfolding tag_at
  tag_at-applies true offset size f p e = refl
  tag_at-applies false offset size f p e = cc

  behind_song-IsVerified :
      (old : Bool) (len size : ℕ) (f : io.Stream) (p : Dro)
      → len < 2 ^ 32
      → Returns
          (IsVerified len)
          (behind_song io (λ end f' p'. verify_length io 1 old len end f' p') old len size f p)
  unfolding behind_song
  behind_song-IsVerified old len size f p small =
      let end = λ (header : ℕ). (len + header) % 2 ^ 32 in
      let (found18, p1, f1) = tag_at io (not old) (end 0x18) size f p in
      let (found15, p2, f2) = tag_at io (not old) (end 0x15) size f1 p1 in
      let (found11, p3, f3) = tag_at io old (end 0x11) size f2 p2 in
      elim (Bool-cases found18) [
        | inl e ↦ rw e (
            verify_twice old len 0x18 f1 p1
              (new-IsHeader old 0x18 (tag_at-applies _ _ _ _ _ e) (inr refl)) small)
        | inr e ↦ elim (Bool-cases found15) [
          | inl e1 ↦
              rw (e, e1)
                (verify_twice old len 0x15 f2 p2
                  (new-IsHeader old 0x15 (tag_at-applies _ _ _ _ _ e1) (inl refl)) small)
          | inr e1 ↦ elim (Bool-cases found11) [
            | inl e2 ↦
                rw (e, e1, e2)
                  (verify_twice old len 0x11 f3 p3 (old-IsHeader old (tag_at-applies _ _ _ _ _ e2))
                    small)
            | inr e2 ↦ rw (e, e1, e2, Returns) tt
          ]
        ]
      ]

  verify_length-IsVerified :
      (old : Bool) (len size : ℕ) (f : io.Stream) (p : Dro)
      → len < 2 ^ 32
      → Returns (IsVerified len) (verify_length io 2 old len size f p)
  verify_length-IsVerified old len size f p small =
      verify_once 1 old len size f p (λ _ _ _. behind_song-IsVerified old len size f p small)

  read_data-IsLoaded :
      (version : Version) (p : Dro) (f : io.Stream)
      → 3 ≤ p.length
      → IsLoaded (some (read_data io version p f))
  unfolding read_data rewind
  read_data-IsLoaded version p f long =
      (record { all_there = length-read_bytes io p.length _; in_song = omega arith }, refl, long)

  load_old-IsLoaded :
      (len : ℕ) (x : Bool × Dro × io.Stream) → len < 2 ^ 32 → Returns IsLoaded (load_old io len x)
  unfolding load_old
  load_old-IsLoaded len (b, p, f) small =
      let (size, f1) = filesize io f in
      Returns-bind (IsVerified len) IsLoaded (verify_length io 2 true len size f1 p) _
        (verify_length-IsVerified true len size f1 p small) found
    where
      found :
          (x : Bool × Dro × io.Stream)
          → IsVerified len x
          → IsLoaded (if x.0 then some (read_data io dro_v0 x.1 x.2) else none)
      found (true, p', f') h = read_data-IsLoaded dro_v0 p' f' (omega (arith, h))
      found (false, p', f') h = tt

  load_fields-IsLoaded : (opl : Opl) (f : io.Stream) → Returns IsLoaded (load_fields io opl f)
  unfolding load_fields load_checked
  load_fields-IsLoaded opl f =
      let (field_08, f1) = io.read_int 4 f in
      let (field_0c, f2) = io.read_int 4 f1 in
      let (field_10, f3) = io.read_int 4 f2 in
      let (size, f4) = filesize io f3 in
      Returns-bind (IsVerified (field_10 % 2 ^ 32)) IsLoaded _ _
        (verify_length-IsVerified false (field_10 % 2 ^ 32) size f4 (blank opl) (omega arith))
        (checked (field_08 % 2 ^ 32) (field_0c % 2 ^ 32) (field_10 % 2 ^ 32) (omega arith))
    where
      checked :
          (a b len : ℕ)
          → b < 2 ^ 32
          → (x : Bool × Dro × io.Stream) → IsVerified len x
          → Returns IsLoaded (load_checked io a b x)
      checked a b len small (true, p, f') h = read_data-IsLoaded _ p f' (omega (arith, h))
      checked a b len small (false, p, f') h = load_old-IsLoaded b (false, p, f') small

  -- Whatever the file holds, `load` ends, and after two calls of `verifyLength` at most for each of the
  -- versions. If it accepts the file the player is at the start of a song of three bytes or more, which
  -- is in its array as a whole.
  pub load-IsAccepted :
      (fp : Provider io) (filename : List ℕ) (opl : Opl)
      → Returns IsLoaded (load io fp filename opl)
  unfolding load
  load-IsAccepted fp filename opl = elim (Option-cases (fp.open_file filename)) [
    | inl e ↦ rw (e, load, Returns) tt
    | inr (f, e) ↦
        rw (e, load) (if_both (Returns IsLoaded) _ (ok none) _ tt (load_fields-IsLoaded opl _))
  ]
