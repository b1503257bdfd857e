-- ===== src/Lzss/Decodes.antt =====
-- src/unlzss.c: a token is decoded to what it means.
use adplug.Base.{
  ℕ, zero, suc, ◌+◌, ◌-◌, ◌*◌, ◌/◌, ◌%◌, ◌^◌, ◌≤◌, ◌<◌, ◌≡◌, refl, sym, ap, ◌∙◌, arith,
}
use adplug.Base.{List, ◌∷◌, ◌++◌, length, drop, get_elem?, some, bit_and, bit_or}
use adplug.Base.{true, false, ◌==◌, ltb, leb, if◌then◌else◌}
use adplug.Base.{get_elem?-of_drop, drop-drop, lt-of_get_elem?, ok}
use adplug.Base.Bits.{bit_and-15, bit_and-4095, bit_and-65280, bit_or-shifted}
use adplug.Base.Loops.{next_round}
use adplug.Lzss.{Buffers, Lzss, put_output, put_work, work_at, next_byte, literal, copy_loop, copy}
use adplug.Lzss.{decode_flag}
use adplug.Lzss.Tokens.{Token, byte, again, IsToken, Window, push_again, expand}
use adplug.Lzss.Tokens.{size, token_bytes, flag}

abbrev pub window_of : Lzss → Window
window_of s = record { bytes = s.work; place = s.edi; output = s.output }

-- The state after `n` more bytes of output, with the window `w`.
record IsAt (s : Lzss) (w : Window) (n : ℕ) (s' : Lzss) : Type 0 where
  window : window_of s' ≡ w
  same_dx : s'.dx ≡ s.dx
  same_idx : s'.input_idx ≡ s.input_idx
  written : s'.output_size ≡ s.output_size + n
  in_window : s'.edi < 4096

put_work-ok :
    (c : ℕ) (s : Lzss)
    → s.edi < 4096
    → put_work c s
      ≡ ok (record s { work = λ i. if i == s.edi then c else s.work i; edi = (s.edi + 1) % 4096 })
unfolding put_work
put_work-ok c s small =
    let in_work : ltb s.edi 65536 ≡ true = ground arith in
    rw (in_work, bit_and-4095 (s.edi + 1)) refl

module _ (b : Buffers) where
  copy_loop-IsAt :
      (n place : ℕ) (s : Lzss)
      → place < 4096
      → s.edi < 4096
      → s.output_size + n ≤ b.output_maxsize
      → (s' : Lzss) × (copy_loop b n place s ≡ ok (next_round s'))
        × IsAt s (push_again n place (window_of s)) n s'
  unfolding copy_loop work_at
  copy_loop-IsAt zero place s hp he room = (
    s,
    refl,
    record {
      window = refl;
      same_dx = refl;
      same_idx = refl;
      written = omega arith;
      in_window = he;
    },
  )
  copy_loop-IsAt (suc n) place s hp he room =
      let free : leb b.output_maxsize s.output_size ≡ false = ground arith in
      let in_work : ltb place 65536 ≡ true = ground arith in
      let s1 : Lzss = put_output (s.work place) (record s {
        work = λ i. if i == s.edi then s.work place else s.work i;
        edi = (s.edi + 1) % 4096;
      }) in
      let (s', e, at) =
        copy_loop-IsAt n ((place + 1) % 4096) s1 (omega arith) (omega arith) (omega arith) in
      (
        s',
        rw (free, in_work, put_work-ok (s.work place) s he, bit_and-4095 (place + 1)) e,
        record {
          window = at.window;
          same_dx = at.same_dx;
          same_idx = at.same_idx;
          written = omega (arith, at.written);
          in_window = at.in_window;
        },
      )

  -- The state behind a token: its bytes are read, and what it means is written.
  pub record Behind (t : Token) (rest : List ℕ) (s s' : Lzss) : Type 0 where
    pub meant : window_of s' ≡ expand t (window_of s)
    pub dx_kept : s'.dx ≡ s.dx
    pub ahead : drop s'.input_idx b.input ≡ rest
    pub grown : s'.output_size ≡ s.output_size + size t
    pub inside : s'.edi < 4096

  pub record Before (t : Token) (rest : List ℕ) (s : Lzss) : Type 0 where
    pub ahead : drop s.input_idx b.input ≡ token_bytes t ++ rest
    pub all_there : length b.input ≡ b.input_size
    pub room : s.output_size + size t ≤ b.output_maxsize
    pub inside : s.edi < 4096

  byte-Behind :
      (c : ℕ) (rest : List ℕ) (s : Lzss)
      → Before (byte c) rest s
      → (s' : Lzss) × (literal b s ≡ ok (next_round s')) × Behind (byte c) rest s s'
  unfolding literal next_byte
  byte-Behind c rest s h =
      let same : s.input_idx + 0 ≡ s.input_idx = omega arith in
      let here : get_elem? b.input s.input_idx ≡ some c =
        ap (get_elem? b.input) (sym same)
        ∙ get_elem?-of_drop b.input (c ∷ rest) s.input_idx 0 c h.ahead refl in
      let inside = lt-of_get_elem? b.input s.input_idx c here in
      let more : leb b.input_size s.input_idx ≡ false = ground (arith, h.all_there) in
      let free : leb b.output_maxsize s.output_size ≡ false = ground (arith, h.room) in
      let s1 : Lzss = record s { input_idx = s.input_idx + 1 } in
      (
        put_output c (record s1 {
          work = λ i. if i == s.edi then c else s.work i;
          edi = (s.edi + 1) % 4096;
        }),
        rw (more, here, put_work-ok c s1 h.inside, free) refl,
        record {
          meant = refl;
          dx_kept = refl;
          ahead = sym (drop-drop s.input_idx 1 b.input) ∙ ap (drop 1) h.ahead;
          grown = refl;
          inside = omega arith;
        },
      )

  again-Behind :
      (place n : ℕ) (rest : List ℕ) (s : Lzss)
      → IsToken (again place n)
      → Before (again place n) rest s
      → (s' : Lzss) × (copy b s ≡ ok (next_round s')) × Behind (again place n) rest s s'
  unfolding copy next_byte
  again-Behind place n rest s (hp, low, high) h =
      let code = place / 256 * 16 + (n - 3) in
      let bytes = place % 256 ∷ code ∷ rest in
      let same : s.input_idx + 0 ≡ s.input_idx = omega arith in
      let first : get_elem? b.input s.input_idx ≡ some (place % 256) =
        ap (get_elem? b.input) (sym same)
        ∙ get_elem?-of_drop b.input bytes s.input_idx 0 (place % 256) h.ahead refl in
      let second : get_elem? b.input (s.input_idx + 1) ≡ some code =
        get_elem?-of_drop b.input bytes s.input_idx 1 code h.ahead refl in
      let inside = lt-of_get_elem? b.input (s.input_idx + 1) code second in
      let more : leb b.input_size s.input_idx ≡ false = ground (arith, h.all_there) in
      let more' : leb b.input_size (s.input_idx + 1) ≡ false = ground (arith, h.all_there) in
      let s2 : Lzss = record s { input_idx = s.input_idx + 1 + 1 } in
      let upper : bit_and (code * 2 ^ 4) 0xff00 ≡ place / 256 * 2 ^ 8 =
        omega (arith, bit_and-65280 (code * 2 ^ 4)) in
      let joined : bit_or (place / 256 * 2 ^ 8) (place % 256) ≡ place =
        omega (arith, bit_or-shifted 8 (place / 256) (place % 256) (omega arith)) in
      let times : bit_and code 0x0f + 3 ≡ n = omega (arith, bit_and-15 code) in
      let (s', e, at) = copy_loop-IsAt n place s2 hp h.inside h.room in
      let two : s'.input_idx ≡ s.input_idx + 2 = omega (arith, at.same_idx) in
      (
        s',
        rw (more, first, more', second, upper, joined, times) e,
        record {
          meant = at.window;
          dx_kept = at.same_dx;
          ahead =
              ap (λ i. drop i b.input) two
              ∙ sym (drop-drop s.input_idx 2 b.input)
              ∙ ap (drop 2) h.ahead;
          grown = at.written;
          inside = at.in_window;
        },
      )

  -- A token is decoded where its flag is the lowest bit.
  pub token-Behind :
      (t : Token) (rest : List ℕ) (s : Lzss)
      → IsToken t
      → Before t rest s
      → bit_and s.dx 1 ≡ flag t
      → (s' : Lzss) × (decode_flag b s ≡ ok (next_round s')) × Behind t rest s s'
  token-Behind (byte c) rest s is h bit = rw bit (byte-Behind c rest s h)
  token-Behind (again place n) rest s is h bit = rw bit (again-Behind place n rest s is h)
