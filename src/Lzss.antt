-- ===== src/Lzss.antt =====
-- src/unlzss.c: the LZSS decompression of Adlib Tracker II. The output is kept with its last byte first,
-- and the window of 65536 bytes as a function, whose accesses are checked.
mod Tests
pub mod Bounds
pub mod Tokens
pub mod Decodes
pub mod RoundTrip
use adplug.Base.{
  ℕ, zero, suc, ◌+◌, ◌-◌, ◌*◌, ◌/◌, ◌%◌, ◌^◌, bit_and, bit_or, List, [], ◌∷◌, get_elem?,
}
use adplug.Base.{Bool, true, false, ◌==◌, ltb, leb, if◌then◌else◌, Outcome, ok, fault, ◌>>=◌, deref}
use adplug.Base.Loops.{Round, return_with, next_round, rounds}

-- The two buffers of the caller.
pub record Buffers : Type 0 where
  pub input : List ℕ
  pub input_size : ℕ
  pub output_maxsize : ℕ

pub record Lzss : Type 0 where
  pub input_idx : ℕ
  pub dx : ℕ
  pub edi : ℕ
  pub work : ℕ → ℕ
  pub output : List ℕ
  pub output_size : ℕ

-- `break` and `goto error_out` end the loop alike.
abbrev pub Turn : Type 0
Turn = Round (Unit {0}) Lzss

abbrev pub leave : Lzss → Outcome Turn
leave s = ok (return_with tt s)

abbrev pub work_size : ℕ
work_size = 65536

pub work_at : Lzss → ℕ → Outcome ℕ
work_at s i = if ltb i work_size then ok (s.work i) else fault

-- `work_ptr[edi] = code; edi = (edi + 1) & (N - 1);`
pub put_work : ℕ → Lzss → Outcome Lzss
put_work code s =
    if ltb s.edi work_size
    then ok (record s {
      work = λ i. if i == s.edi then code else s.work i;
      edi = bit_and (s.edi + 1) 4095;
    })
    else fault

abbrev pub put_output : ℕ → Lzss → Lzss
put_output code s = record s { output = code ∷ s.output; output_size = s.output_size + 1 }

module _ (b : Buffers) where
  pub next_byte : Lzss → Outcome (ℕ × Lzss)
  next_byte s = do
    code ← deref (get_elem? b.input s.input_idx)
    ok (code, record s { input_idx = s.input_idx + 1 })

  pub literal : Lzss → Outcome Turn
  literal s = if leb b.input_size s.input_idx then leave s else (do
    (code, s1) ← next_byte s
    s2 ← put_work code s1
    if leb b.output_maxsize s2.output_size then leave s2 else ok (next_round (put_output code s2)))

  -- `do … while (--length > 0)` with `length` bytes to go.
  pub copy_loop : ℕ → ℕ → Lzss → Outcome Turn
  copy_loop zero ebx s = ok (next_round s)
  copy_loop (suc length) ebx s = if leb b.output_maxsize s.output_size then leave s else (do
    code ← work_at s ebx
    s1 ← put_work code s
    copy_loop length (bit_and (ebx + 1) 4095) (put_output code s1))

  pub copy : Lzss → Outcome Turn
  copy s = if leb b.input_size s.input_idx then leave s else (do
    (prevcode, s1) ← next_byte s
    if leb b.input_size s1.input_idx then leave s1 else (do
      (code, s2) ← next_byte s1
      let ebx = bit_or (bit_and (code * 2 ^ 4) 0xff00) prevcode
      copy_loop (bit_and code 0x0f + 3) ebx s2))

  abbrev pub decode_flag : Lzss → Outcome Turn
  decode_flag s = if bit_and s.dx 1 == 0 then copy s else literal s

  -- One round of `for (;;)`. The bits above the flags of `dx` tell when a new byte of flags is due.
  pub round : Lzss → Outcome Turn
  round s =
      let s1 = record s { dx = s.dx / 2 } in
      if s1.dx / 2 ^ 8 == 0
      then (if leb b.input_size s1.input_idx
          then leave s1
          else (do (code, s2) ← next_byte s1; decode_flag (record s2 { dx = bit_or 0xff00 code })))
      else decode_flag s1

  pub start : Lzss
  start = record {
    input_idx = 0;
    dx = 0;
    edi = 4096 - 18;
    work = λ i. 0;
    output = [];
    output_size = 0;
  }

  -- `LZSS_decompress`: each round but the last one takes a byte of the input.
  pub decompress : Outcome (Unit {0} × Lzss)
  decompress = rounds (suc b.input_size) round start
