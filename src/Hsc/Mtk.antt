-- ===== src/Hsc/Mtk.antt =====
-- src/mtk.cpp and src/mtk.h: `CmtkLoader`, which unpacks a file into the arrays of the HSC player.
-- The unpacked bytes are kept with the last one first. `none` is the return of false.
pub mod Unpack
pub mod Load
use adplug.Base.{ℕ, zero, suc, ◌+◌, ◌-◌, ◌*◌, ◌/◌, ◌%◌, ◌^◌, bit_and, List, [], ◌∷◌, ◌++◌}
use adplug.Base.{length, get_elem?, replicate, Option, none, some, Bool, true, false, not, ◌||◌}
use adplug.Base.{◌==◌, ltb, leb, if◌then◌else◌, Outcome, ok, fault, ◌>>=◌, deref}
use adplug.Base.Loops.{Round, return_with, next_round, rounds}
use adplug.Base.Stream.{BinIo, same_bytes}
use adplug.Provider.{Provider}
use adplug.Hsc.{Hsc, rewind}
use adplug.Hsc.Packed.{slice, instruments, copy_patterns, sizeof_patterns}

abbrev pub mtk_id : List ℕ
mtk_id =
    0x6d ∷ 0x70 ∷ 0x75 ∷ 0x34 ∷ 0x30 ∷ 0x31 ∷ 0x74 ∷ 0x72 ∷ 0x92 ∷ 0x6b ∷ 0x6b ∷ 0xee ∷ 0x72 ∷ 0x40
    ∷ 0x64 ∷ 0x61 ∷ 0x74 ∷ 0x61 ∷ []

-- `sizeof(*data)`: the two names, the 128 names of the instruments, the instruments, the orders, and
-- one byte more.
abbrev pub sizeof_data : ℕ
sizeof_data = 34 + 34 + 0x80 * 34 + 0x80 * 12 + 0x80 + 1

pub record Unpacked : Type 0 where
  pub org : List ℕ
  pub orgptr : ℕ
  pub ctrlbits : ℕ
  pub ctrlmask : ℕ

pub record Mtk : Type 0 where
  pub hsc : Hsc
  pub title : List ℕ
  pub composer : List ℕ
  pub instname : List (List ℕ)

abbrev pub store : List ℕ → ℕ → Unpacked → Unpacked
store org cnt s = record s { org = org; orgptr = s.orgptr + cnt }

-- The loop of `copy_range`; in each round the byte is `offs` behind the end.
pub copy_bytes : ℕ → ℕ → List ℕ → Outcome (List ℕ)
copy_bytes zero offs org = ok org
copy_bytes (suc n) offs org = deref (get_elem? org (offs - 1)) >>= λ b. copy_bytes n offs (b ∷ org)

module _ (io : BinIo) (size : ℕ) where
  abbrev pub Turn : Type 0
  Turn = Round Bool (Unpacked × io.Stream)

  -- `f->readInt(1)`
  abbrev pub next_byte : io.Stream → ℕ × io.Stream
  next_byte f = ((io.read_int 1 f).0 % 2 ^ 8, (io.read_int 1 f).1)

  -- The mask goes on to the next control bit, and reads new ones behind the last.
  pub next_ctrl : Unpacked → io.Stream → Unpacked × io.Stream
  next_ctrl s f =
      if s.ctrlmask / 2 == 0
      then (
        record s { ctrlbits = (io.read_int 2 f).0 % 2 ^ 16; ctrlmask = 0x8000 },
        (io.read_int 2 f).1,
      )
      else (record s { ctrlmask = s.ctrlmask / 2 }, f)

  pub repeat_byte : ℕ → Unpacked → io.Stream → Outcome Turn
  repeat_byte cnt s f =
      if ltb size (s.orgptr + cnt)
      then ok (return_with false (s, f))
      else ok (next_round (store (replicate cnt (next_byte f).0 ++ s.org) cnt s, (next_byte f).1))

  pub copy_range : ℕ → ℕ → Unpacked → io.Stream → Outcome Turn
  copy_range offs cnt s f =
      if ltb size (s.orgptr + cnt) || ltb s.orgptr offs
      then ok (return_with false (s, f))
      else copy_bytes cnt offs s.org >>= λ org. ok (next_round (store org cnt s, f))

  -- `switch (cmd >> 4)`
  pub command : ℕ → Unpacked → io.Stream → Outcome Turn
  command cmd s f =
      let cnt = bit_and cmd 0x0f + 3 in
      let kind = cmd / 2 ^ 4 in
      let (b, f1) = next_byte f in
      let (c, f2) = next_byte f1 in
      if kind == 0
      then repeat_byte cnt s f
      else if kind == 1
      then repeat_byte (cnt + b * 2 ^ 4 + 16) s f1
      else if kind == 2
      then copy_range (cnt + b * 2 ^ 4) (c + 16) s f2
      else copy_range (cnt + b * 2 ^ 4) kind s f1

  -- One round of the loop that unpacks; it returns whether all bytes are there.
  pub round : Unpacked × io.Stream → Outcome Turn
  round (s, f) =
      if leb size s.orgptr
      then ok (return_with true (s, f))
      else if (io.error f).0
      then ok (return_with false (s, (io.error f).1))
      else (do
        let (s1, f1) = next_ctrl s (io.error f).1
        let (b, f2) = next_byte f1
        if bit_and s1.ctrlbits s1.ctrlmask == 0
            then ok (next_round (store (b ∷ s1.org) 1 s1, f2))
            else command b s1 f2)

  pub unpack : io.Stream → Outcome (Bool × (Unpacked × io.Stream))
  unpack f =
      rounds (suc size) round (record { org = []; orgptr = 0; ctrlbits = 0; ctrlmask = 0 }, f)

-- The bytes from the last one on, in their order.
pub in_order : List ℕ → List ℕ → List ℕ
in_order [] bytes = bytes
in_order (b ∷ org) bytes = in_order org (b ∷ bytes)

-- The text that `strncpy` takes: up to a null.
pub text_of : List ℕ → List ℕ
text_of [] = []
text_of (c ∷ cs) = let rest = text_of cs in if c == 0 then [] else c ∷ rest

-- The names of the instruments, from the one at `at` on.
pub names : ℕ → ℕ → List ℕ → Outcome (List (List ℕ))
names zero at org = ok []
names (suc n) at org = do
  name ← slice (at + 1) 33 org
  rest ← names n (at + 34) org
  ok (text_of name ∷ rest)

-- `convert to HSC replay data`, from all bytes of the unpacked file.
pub convert : List ℕ → Mtk → Outcome Mtk
convert org p = do
  title ← slice 1 33 org
  composer ← slice 35 33 org
  instname ← names 0x80 68 org
  insts ← slice 4420 (0x80 * 12) org
  order ← slice 5956 0x80 org
  let cnt = length org - sizeof_data
  notes ← slice sizeof_data (if ltb sizeof_patterns cnt then sizeof_patterns else cnt) org
  patterns ← copy_patterns notes p.hsc.patterns
  hsc ← rewind (record p.hsc { instr = instruments 0x80 insts; song = order; patterns = patterns })
  ok (record { hsc = hsc; title = text_of title; composer = text_of composer; instname = instname })

module _ (io : BinIo) where
  -- What the header says, and how many bytes are to come.
  pub read_header : io.Stream → Option (ℕ × io.Stream)
  read_header f =
      let (id, f1) = io.read_buffer 18 f in
      let (crc, f2) = io.read_int 2 f1 in
      let (size, f3) = io.read_int 2 f2 in
      if not (same_bytes id mtk_id) || ltb (size % 2 ^ 16) sizeof_data
      then none
      else some (size % 2 ^ 16, f3)

  pub load : Provider io → List ℕ → Mtk → Outcome (Option Mtk)
  load fp filename p = elim (fp.open_file filename) [
    | none ↦ ok none
    | some f ↦ elim (read_header f) [
      | none ↦ ok none
      | some h ↦ unpack io h.0 h.1 >>= λ x.
          if not x.0 || ((io.error x.1.1).0 || not (io.ateof (io.error x.1.1).1))
          then ok none
          else convert (in_order x.1.0.org []) p >>= λ q. ok (some q)
    ]
  ]
