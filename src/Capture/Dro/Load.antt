-- ===== src/Capture/Dro/Load.antt =====
-- src/dro.cpp: `CdroPlayer::load`, `verifyLength` and `parseTag`. `none` is the return of false from
-- `load`.
pub mod Accepts
use adplug.Base.{ℕ, zero, suc, ◌+◌, ◌-◌, ◌*◌, ◌/◌, ◌%◌, ◌^◌, List, [], ◌∷◌, Option, none, some}
use adplug.Base.{Bool, true, false, not, ◌&&◌, ◌||◌, ◌==◌, ltb, leb, if◌then◌else◌}
use adplug.Base.{Outcome, ok, stuck, ◌>>=◌}
use adplug.Base.Opl.{Opl}
use adplug.Base.Stream.{BinIo, read_bytes}
use adplug.Provider.{Provider, filesize}
use adplug.Capture.Tags.{Tag, no_tag, has_tag_size, tag_marker, read_tag}
use adplug.Base.Stream.{same_bytes}
use adplug.Capture.Dro.{Dro, Version, dro_v0, dro_v1, rewind}
use adplug.Capture.Dro2.Load.{dro_id}

abbrev pub blank : Opl → Dro
blank opl = record {
  opl = opl;
  song = [];
  length = 0;
  pos = 0;
  delay = 0;
  data_offset = 0;
  version = dro_v0;
  tag = no_tag;
}

module _ (io : BinIo) where
  -- A parameter of `verifyLength` that it changes is part of what it returns.
  abbrev pub Verified : Type 0
  Verified = Outcome (Bool × Dro × io.Stream)

  pub parse_tag : ℕ → ℕ → io.Stream → Dro → Bool × Dro × io.Stream
  parse_tag offset size f p =
      let f1 = io.seek offset f in
      let (is_tag, f2) = tag_marker io f1 in
      let (tag, f3) = read_tag io no_tag f2 in
      if not (has_tag_size size (io.pos f1))
      then (false, p, f1)
      else if is_tag
      then (true, record p { tag = tag }, f3)
      else (false, p, f2)

  -- `len + header < size && parseTag(f, len + header, size)`, where `applies` holds.
  pub tag_at : Bool → ℕ → ℕ → io.Stream → Dro → Bool × Dro × io.Stream
  tag_at applies offset size f p =
      if applies && ltb offset size then parse_tag offset size f p else (false, p, f)

  -- Check for the tag at file end; `next` is the call of `verifyLength` for what stands before it.
  pub behind_song : (ℕ → io.Stream → Dro → Verified) → Bool → ℕ → ℕ → io.Stream → Dro → Verified
  behind_song next old len size f p =
      let end = λ (header : ℕ). (len + header) % 2 ^ 32 in
      let (found18, p1, f1) = tag_at (not old) (end 0x18) size f p in
      let (found15, p2, f2) = tag_at (not old) (end 0x15) size f1 p1 in
      let (found11, p3, f3) = tag_at old (end 0x11) size f2 p2 in
      if found18
      then next (end 0x18) f1 p1
      else if found15
      then next (end 0x15) f2 p2
      else if found11
      then next (end 0x11) f3 p3
      else ok (false, p3, f3)

  -- The function calls itself where it finds a tag, with the file's size up to there: fuel.
  pub verify_length : ℕ → Bool → ℕ → ℕ → io.Stream → Dro → Verified
  verify_length zero old len size f p = stuck
  verify_length (suc fuel) old len size f p =
      let header = if old then 0x11 else 0x15 in
      let behind =
        behind_song (λ end f' p'. verify_length fuel old len end f' p') old len size f p in
      if ltb len 3
      then ok (false, p, f)
      else if (size + 2 ^ 64 - header) % 2 ^ 64 == len
      then ok (true, record p { data_offset = header; length = len }, f)
      else if not old && (size + 2 ^ 64 - 0x18) % 2 ^ 64 == len
      then ok (true, record p { data_offset = 0x18; length = len }, f)
      else if ltb len size
      then behind
      else ok (false, p, f)

  -- Read the OPL data.
  pub read_data : Version → Dro → io.Stream → Dro
  read_data version p f =
      let (song, f1) = read_bytes io p.length (io.seek p.data_offset f) in
      rewind (record p { song = song; version = version })

  -- Version 0 where the header is not that of version 1.
  pub load_old : ℕ → Bool × Dro × io.Stream → Outcome (Option Dro)
  load_old len (_, p, f) =
      let (size, f1) = filesize io f in
      do
        (is_old, p', f') ← verify_length 2 true len size f1 p
        ok (if is_old then some (read_data dro_v0 p' f') else none)

  pub load_checked : ℕ → ℕ → Bool × Dro × io.Stream → Outcome (Option Dro)
  load_checked field_08 field_0c (is_new, p, f) =
      let old = load_old field_0c (is_new, p, f) in
      if is_new
      then ok (some (read_data (dro_v1 (field_08 / 2 ^ 16) (field_08 % 2 ^ 16)) p f))
      else old

  pub load_fields : Opl → io.Stream → Outcome (Option Dro)
  load_fields opl f =
      let (field_08, f1) = io.read_int 4 f in
      let (field_0c, f2) = io.read_int 4 f1 in
      let (field_10, f3) = io.read_int 4 f2 in
      let (size, f4) = filesize io f3 in
      do
        checked ← verify_length 2 false (field_10 % 2 ^ 32) size f4 (blank opl)
        load_checked (field_08 % 2 ^ 32) (field_0c % 2 ^ 32) checked

  pub load : Provider io → List ℕ → Opl → Outcome (Option Dro)
  load fp filename opl = elim (fp.open_file filename) [
    | none ↦ ok none
    | some f ↦
        let (id, f1) = io.read_buffer 8 f in
        if not (same_bytes id dro_id) then ok none else load_fields opl f1
  ]
