-- ===== src/Database/Crc.antt =====
-- src/database.cpp, `CAdPlugDatabase::CKey::make`: the CRC16 and the CRC32 of a stream.
pub mod Ends
use adplug.Base.{ℕ, zero, suc, ◌+◌, ◌-◌, ◌/◌, ◌%◌, ◌^◌, ◌<◌, bit_and, bit_xor, ◌==◌}
use adplug.Base.{Bool, true, false, if◌then◌else◌, Outcome, ok, stuck, ◌>>=◌}
use adplug.Base.Stream.{BinIo}
use adplug.Database.{Key}

-- The two running values and what is left of the byte.
pub record Crc : Type 0 where
  pub crc16 : ℕ
  pub crc32 : ℕ
  pub byte : ℕ

-- One step of either sum over the lowest bit of the byte. `unsigned short` and `unsigned long` hold
-- the values, which no step makes wider.
pub crc_bit : ℕ → ℕ → ℕ → ℕ
crc_bit magic crc byte =
    if bit_and (bit_xor crc byte) 1 == 0 then crc / 2 else bit_xor (crc / 2) magic

pub bit_step : Crc → Crc
bit_step c = record {
  crc16 = crc_bit 0xa001 c.crc16 c.byte;
  crc32 = crc_bit 0xedb88320 c.crc32 c.byte;
  byte = c.byte / 2;
}

pub bit_steps : ℕ → Crc → Crc
bit_steps zero c = c
bit_steps (suc n) c = bit_steps n (bit_step c)

pub byte_step : Crc → ℕ → Crc
byte_step c byte = bit_steps 8 (record c { byte = byte })

abbrev pub crc_start : Crc
crc_start = record { crc16 = 0; crc32 = 0xffffffff; byte = 0 }

-- `crc16 &= 0xffff; crc32 = ~crc32; crc32 &= 0xffffffffL;` over a 64-bit `unsigned long`.
pub finish : Crc → Key
finish c = record {
  crc16 = bit_and c.crc16 0xffff;
  crc32 = bit_and (2 ^ 64 - 1 - c.crc32) 0xffffffff;
}

module _ (io : BinIo) where
  -- `while(!buf.eof())`, with fuel.
  pub make_loop : ℕ → io.Stream → Crc → Outcome (Crc × io.Stream)
  make_loop zero s c = stuck
  make_loop (suc fuel) s c =
      let (byte, s') = io.read_int 1 s in
      let more = make_loop fuel s' (byte_step c (byte % 2 ^ 8)) in
      if io.eof s then ok (c, s) else more

  -- Each round reads a byte, so the bytes that are left bound the rounds.
  pub make : io.Stream → Outcome (Key × io.Stream)
  make s = do (c, s') ← make_loop (suc (io.left s)) s crc_start; ok (finish c, s')
