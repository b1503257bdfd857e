-- ===== src/Hsc.antt =====
-- src/hsc.cpp and src/hsc.h: the state of the HSC player and its register helpers. An array is a list
-- of the size that the class declares, and an access outside of it is a fault. `slide`, a signed
-- char, is kept as its byte.
mod Tests
pub mod Update
pub mod Safety
pub mod Load
pub mod Rewound
pub mod Packed
pub mod Mtk
pub mod Hsp
use adplug.Base.{ℕ, zero, suc, ◌+◌, ◌-◌, ◌*◌, ◌/◌, ◌%◌, ◌^◌, bit_and, bit_or, List, [], ◌∷◌}
use adplug.Base.{get_elem?, set, Bool, true, false, ◌==◌, if◌then◌else◌}
use adplug.Base.{Outcome, ok, ◌>>=◌, deref}
use adplug.Base.Opl.{Opl, write, init}
use adplug.Player.{op_table}

pub record Note : Type 0 where
  pub note : ℕ
  pub effect : ℕ

pub record Chan : Type 0 where
  pub inst : ℕ
  pub slide : ℕ
  pub freq : ℕ

pub record Hsc : Type 0 where
  pub opl : Opl
  pub channel : List Chan
  pub instr : List (List ℕ)
  pub song : List ℕ
  pub patterns : List (List Note)
  pub pattpos : ℕ
  pub songpos : ℕ
  pub pattbreak : ℕ
  pub songend : Bool
  pub mode6 : Bool
  pub bd : ℕ
  pub fadein : ℕ
  pub speed : ℕ
  pub del : ℕ
  pub adl_freq : List ℕ
  pub mtkmode : Bool

-- `x & ~mask` on an `int`.
abbrev pub and_not : ℕ → ℕ → ℕ
and_not x mask = bit_and x (2 ^ 32 - 1 - mask)

abbrev pub write_reg : ℕ → ℕ → Hsc → Hsc
write_reg reg val p = record p { opl = write reg val ∷ p.opl }

-- `instr[i]` and `instr[i][k]`
pub ins_at : Hsc → ℕ → Outcome (List ℕ)
ins_at p i = deref (get_elem? p.instr i)

pub instr_at : Hsc → ℕ → ℕ → Outcome ℕ
instr_at p i k = do ins ← ins_at p i; deref (get_elem? ins k)

pub channel_at : Hsc → ℕ → Outcome Chan
channel_at p chan = deref (get_elem? p.channel chan)

pub setfreq : ℕ → ℕ → Hsc → Outcome Hsc
setfreq chan freq p = do
  a ← deref (get_elem? p.adl_freq chan)
  let a' = bit_or (and_not a 3) (freq / 2 ^ 8) % 2 ^ 8
  ok (record p {
    adl_freq = set p.adl_freq chan a';
    opl = write (0xb0 + chan) a' ∷ write (0xa0 + chan) (bit_and freq 0xff) ∷ p.opl;
  })

pub setvolume : ℕ → ℕ → ℕ → Hsc → Outcome Hsc
setvolume chan volc volm p = do
  c ← channel_at p chan
  ins2 ← instr_at p c.inst 2
  ins3 ← instr_at p c.inst 3
  ins8 ← instr_at p c.inst 8
  op ← deref (get_elem? op_table chan)
  let modulator = if bit_and ins8 1 == 0 then ins3 else bit_or volm (and_not ins3 63)
  ok (record p {
    opl = write (0x40 + op) modulator ∷ write (0x43 + op) (bit_or volc (and_not ins2 63)) ∷ p.opl;
  })

-- The twelve bytes of an instrument.
pub data Instrument : Type 0 where
  bytes : (b0 b1 b2 b3 b4 b5 b6 b7 b8 b9 b10 : ℕ) → Instrument

pub instrument : Hsc → ℕ → Outcome Instrument
instrument p i = do
  b0 ← instr_at p i 0
  b1 ← instr_at p i 1
  b2 ← instr_at p i 2
  b3 ← instr_at p i 3
  b4 ← instr_at p i 4
  b5 ← instr_at p i 5
  b6 ← instr_at p i 6
  b7 ← instr_at p i 7
  b8 ← instr_at p i 8
  b9 ← instr_at p i 9
  b10 ← instr_at p i 10
  ok (bytes b0 b1 b2 b3 b4 b5 b6 b7 b8 b9 b10)

-- The writes of `setinstr` before it sets the volume, the last one first.
pub instr_writes : ℕ → ℕ → Instrument → Opl → Opl
instr_writes chan op (bytes b0 b1 b2 b3 b4 b5 b6 b7 b8 b9 b10) o =
    write (0xe0 + op) b10
    ∷ write (0xe3 + op) b9
    ∷ write (0x80 + op) b7
    ∷ write (0x83 + op) b6
    ∷ write (0x60 + op) b5
    ∷ write (0x63 + op) b4
    ∷ write (0x20 + op) b1
    ∷ write (0x23 + op) b0
    ∷ write (0xc0 + chan) b8
    ∷ write (0xb0 + chan) 0
    ∷ o

pub volumes : Instrument → ℕ × ℕ
volumes (bytes b0 b1 b2 b3 b4 b5 b6 b7 b8 b9 b10) = (bit_and b2 63, bit_and b3 63)

pub setinstr : ℕ → ℕ → Hsc → Outcome Hsc
setinstr chan insnr p = do
  c ← channel_at p chan
  op ← deref (get_elem? op_table chan)
  ins ← instrument p insnr
  let p' = record p {
    channel = set p.channel chan (record c { inst = insnr });
    opl = instr_writes chan op ins p.opl;
  }
  setvolume chan (volumes ins).0 (volumes ins).1 p'

-- `for(i=0;i<9;i++) setinstr(i,i);`, from channel `i` with `n` to go.
pub init_channels : ℕ → ℕ → Hsc → Outcome Hsc
init_channels zero i p = ok p
init_channels (suc n) i p = do p' ← setinstr i i p; init_channels n (i + 1) p'

pub rewind : Hsc → Outcome Hsc
rewind p = init_channels 9 0 (record p {
  pattpos = 0;
  songpos = 0;
  pattbreak = 0;
  speed = 2;
  del = 1;
  songend = false;
  mode6 = false;
  bd = 0;
  fadein = 0;
  opl = write 0xbd 0 ∷ write 8 128 ∷ write 1 32 ∷ init ∷ p.opl;
})
