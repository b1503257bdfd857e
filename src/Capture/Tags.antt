-- ===== src/Capture/Tags.antt =====
-- src/dro2.cpp, src/dro.cpp and src/raw.cpp: the tag that the loaders of captures find behind a song.
use adplug.Base.{ℕ, ◌+◌, ◌-◌, ◌%◌, ◌^◌, List, [], Bool, false, not, ◌&&◌}
use adplug.Base.{◌==◌, ltb, leb, if◌then◌else◌}
use adplug.Base.Stream.{BinIo}

-- The texts of a tag.
pub record Tag : Type 0 where
  pub title : List ℕ
  pub author : List ℕ
  pub desc : List ℕ

abbrev pub no_tag : Tag
no_tag = record { title = []; author = []; desc = [] }

-- `int tagsize = size - pos; tagsize >= 3`
pub has_tag_size : ℕ → ℕ → Bool
has_tag_size size pos =
    let tagsize = (size + 2 ^ 64 - pos) % 2 ^ 32 in leb 3 tagsize && ltb tagsize (2 ^ 31)

module _ (io : BinIo) where
  -- The three bytes that a tag begins with; reading stops at the first other byte.
  pub tag_marker : io.Stream → Bool × io.Stream
  tag_marker f =
      let (a, f1) = io.read_int 1 f in
      let (b, f2) = io.read_int 1 f1 in
      let (c, f3) = io.read_int 1 f2 in
      if not (a % 2 ^ 8 == 0xff)
      then (false, f1)
      else if not (b % 2 ^ 8 == 0xff)
      then (false, f2)
      else (c % 2 ^ 8 == 0x1a, f3)

  -- From the label `desc_section` on.
  pub desc_section : Tag → io.Stream → Tag × io.Stream
  desc_section tag f =
      let (marker, f1) = io.read_int 1 f in
      if not (marker == 0x1c)
      then (tag, f1)
      else (let (desc, f2) = io.read_text 1023 f1 in (record tag { desc = desc }, f2))

  -- The title, and the author unless its marker is missing.
  pub read_tag : Tag → io.Stream → Tag × io.Stream
  read_tag tag f =
      let (title, f1) = io.read_text 40 f in
      let tag' = record tag { title = title } in
      let (marker, f2) = io.read_int 1 f1 in
      if not (marker == 0x1b)
      then desc_section tag' (io.seek_back 1 f2)
      else (let (author, f3) = io.read_text 40 f2 in
          desc_section (record tag' { author = author }) f3)
