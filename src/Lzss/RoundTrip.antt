-- ===== src/Lzss/RoundTrip.antt =====
-- src/unlzss.c: the decompression of the bytes of tokens gives what the tokens mean.
use adplug.Base.{ℕ, zero, suc, ◌+◌, ◌*◌, ◌/◌, ◌^◌, ◌≤◌, ◌<◌, ◌≡◌, refl, sym, ap, ◌∙◌, arith}
use adplug.Base.{List, [], ◌∷◌, ◌++◌, length, drop, get_elem?, some, All, bit_and, bit_or}
use adplug.Base.{true, false, ◌==◌, leb}
use adplug.Base.{
  get_elem?-of_drop, drop-drop, lt-of_get_elem?, length-of_drop, ok, Returns, Returns-map,
}
use adplug.Base.Bits.{bit_and-1, bit_or-shifted}
use adplug.Base.Loops.{return_with, next_round, rounds}
use adplug.Lzss.{Buffers, Lzss, next_byte, copy}
use adplug.Lzss.{decode_flag, round, start, decompress}
use adplug.Lzss.Tokens.{Token, byte, again, IsToken, expand, expand_all}
use adplug.Lzss.Tokens.{first_window, size, total, token_bytes, flag, flags, bytes_from, encode}
use adplug.Lzss.Tokens.{length-bytes_from}
use adplug.Lzss.Decodes.{window_of, Before, token-Behind}
use native.Mathlib.Nat.{pow-suc, one-le-pow}

flag-le : (t : Token) → flag t ≤ 1
flag-le (byte c) = omega arith
flag-le (again place n) = omega arith

flags-lt : (n : ℕ) (ts : List Token) → flags n ts < 2 ^ n
flags-lt zero ts = omega arith
flags-lt (suc n) [] = omega (arith, one-le-pow (suc n) 2 (omega arith))
flags-lt (suc n) (t ∷ ts) = omega (arith, pow-suc 2 n, flags-lt n ts, flag-le t)

-- `dx` before a round with `n` flags to go: the flags above its lowest bit, and eight ones above them.
abbrev Due : ℕ → List Token → ℕ → Type 0
Due zero ts dx = dx / 2 < 256
Due (suc n) ts dx = dx / 2 ≡ flags (suc n) ts + 2 ^ suc n * 255

Due-of : (n : ℕ) (ts : List Token) (dx : ℕ) → dx / 2 ≡ flags n ts + 2 ^ n * 255 → Due n ts dx
Due-of zero ts dx e = omega arith
Due-of (suc n) ts dx e = e

module _ (b : Buffers) where
  record Ready (n : ℕ) (ts : List Token) (s : Lzss) : Type 0 where
    ahead : drop s.input_idx b.input ≡ bytes_from n ts
    all_there : length b.input ≡ b.input_size
    room : s.output_size + total ts ≤ b.output_maxsize
    inside : s.edi < 4096
    due : Due n ts s.dx

  -- A round takes the next token.
  record Taken (t : Token) (ts : List Token) (s : Lzss) : Type 0 where
    flags_left : ℕ
    next : Lzss
    turn : round b s ≡ ok (next_round next)
    ready : Ready flags_left ts next
    meant : window_of next ≡ expand t (window_of s)
    grown : next.output_size ≡ s.output_size + size t

  -- From the flag of a token on.
  after_flag :
      (n : ℕ) (t : Token) (ts : List Token) (s s1 : Lzss)
      → IsToken t
      → Before b t (bytes_from n ts) s1
      → s1.output_size + total (t ∷ ts) ≤ b.output_maxsize
      → s1.dx ≡ flag t + 2 * (flags n ts + 2 ^ n * 255)
      → window_of s1 ≡ window_of s
      → s1.output_size ≡ s.output_size
      → round b s ≡ decode_flag b s1
      → Taken t ts s
  after_flag n t ts s s1 is h room dx same size e =
      let low = flag-le t in
      let bit : bit_and s1.dx 1 ≡ flag t = omega (arith, bit_and-1 s1.dx) in
      let (s', e', behind) = token-Behind b t (bytes_from n ts) s1 is h bit in
      record {
        flags_left = n;
        next = s';
        turn = e ∙ e';
        ready = record {
          ahead = behind.ahead;
          all_there = h.all_there;
          room = omega (arith, behind.grown);
          inside = behind.inside;
          due = Due-of n ts s'.dx (omega (arith, behind.dx_kept));
        };
        meant = behind.meant ∙ ap (expand t) same;
        grown = omega (arith, behind.grown);
      }

  take :
      (n : ℕ) (t : Token) (ts : List Token) (s : Lzss)
      → IsToken t
      → Ready n (t ∷ ts) s
      → Taken t ts s
  unfolding round next_byte
  take (suc n) t ts s is h =
      let p = one-le-pow n 2 (omega arith) in
      let d : s.dx / 2 ≡ flag t + 2 * (flags n ts + 2 ^ n * 255) =
        omega (arith, h.due, pow-suc 2 n) in
      let given : (s.dx / 2 / 2 ^ 8 == 0) ≡ false = ground arith in
      after_flag n t ts s (record s { dx = s.dx / 2 }) is
        (record {
          ahead = h.ahead;
          all_there = h.all_there;
          room = omega (arith, h.room);
          inside = h.inside;
        })
        h.room d refl refl (rw given refl)
  take zero t ts s is h =
      let code = flags 8 (t ∷ ts) in
      let rest = token_bytes t ++ bytes_from 7 ts in
      let here : get_elem? b.input s.input_idx ≡ some code =
        let same : s.input_idx + 0 ≡ s.input_idx = omega arith in
        ap (get_elem? b.input) (sym same)
        ∙ get_elem?-of_drop b.input (code ∷ rest) s.input_idx 0 code h.ahead refl in
      let due : (s.dx / 2 / 2 ^ 8 == 0) ≡ true = ground (arith, h.due) in
      let inside = lt-of_get_elem? b.input s.input_idx code here in
      let more : leb b.input_size s.input_idx ≡ false = ground (arith, h.all_there) in
      let dx : bit_or 0xff00 code ≡ flag t + 2 * (flags 7 ts + 2 ^ 7 * 255) =
        omega (arith, bit_or-shifted 8 255 code (flags-lt 8 (t ∷ ts))) in
      after_flag 7 t ts s (record s { dx = bit_or 0xff00 code; input_idx = s.input_idx + 1 }) is
        (record {
          ahead = sym (drop-drop s.input_idx 1 b.input) ∙ ap (drop 1) h.ahead;
          all_there = h.all_there;
          room = omega (arith, h.room);
          inside = h.inside;
        })
        h.room dx refl refl (rw (due, more, here) refl)

  -- What the tokens mean is written, and the input is at its end.
  abbrev Decoded : List Token → Lzss → Unit {0} × Lzss → Type 0
  Decoded ts s (_, s') =
      (window_of s' ≡ expand_all ts (window_of s)) × (s'.output_size ≡ s.output_size + total ts)

  -- Without a byte to read the loop ends, at the flags or at a part of the window.
  round_end :
      (n : ℕ) (s : Lzss)
      → Ready n [] s
      → (s' : Lzss) × (round b s ≡ ok (return_with tt s')) × Decoded [] s (tt, s')
  unfolding round copy
  round_end zero s h =
      let due : (s.dx / 2 / 2 ^ 8 == 0) ≡ true = ground (arith, h.due) in
      let over = length-of_drop s.input_idx b.input h.ahead in
      let no_more : leb b.input_size s.input_idx ≡ true = ground (arith, h.all_there) in
      (record s { dx = s.dx / 2 }, rw (due, no_more) refl, (refl, omega arith))
  round_end (suc n) s h =
      let p = one-le-pow n 2 (omega arith) in
      let d : s.dx / 2 ≡ 2 * (2 ^ n * 255) = omega (arith, h.due, pow-suc 2 n) in
      let given : (s.dx / 2 / 2 ^ 8 == 0) ≡ false = ground arith in
      let bit : bit_and (s.dx / 2) 1 ≡ 0 = omega (arith, bit_and-1 (s.dx / 2)) in
      let over = length-of_drop s.input_idx b.input h.ahead in
      let no_more : leb b.input_size s.input_idx ≡ true = ground (arith, h.all_there) in
      (record s { dx = s.dx / 2 }, rw (given, bit, no_more) refl, (refl, omega arith))

  rounds-Decoded :
      (ts : List Token) (n fuel : ℕ) (s : Lzss)
      → All IsToken ts
      → Ready n ts s
      → length ts < fuel
      → Returns (Decoded ts s) (rounds fuel (round b) s)
  unfolding rounds
  rounds-Decoded ts n zero s are h enough = absurd (omega arith)
  rounds-Decoded [] n (suc fuel) s are h enough =
      let (s', e, decoded) = round_end n s h in rw (e, Returns) decoded
  rounds-Decoded (t ∷ ts) n (suc fuel) s (is, are) h enough =
      let taken = take n t ts s is h in
      rw taken.turn (
        Returns-map (Decoded ts taken.next) (Decoded (t ∷ ts) s) _
          (λ (_, s') (meant, size).
            (meant ∙ ap (expand_all ts) taken.meant, omega (arith, size, taken.grown)))
          (rounds-Decoded ts taken.flags_left fuel taken.next are taken.ready (omega arith)))

-- The decompression of the bytes of any tokens ends, and where the output has room for it, it writes the
-- bytes that the tokens mean, all of them and no others, the last one first.
pub decompress-encode :
    (ts : List Token) (maxsize : ℕ)
    → All IsToken ts
    → total ts ≤ maxsize
    → Returns
        (λ (x : Unit {0} × Lzss).
          (x.1.output ≡ (expand_all ts first_window).output) × (x.1.output_size ≡ total ts))
        (decompress
          (record { input = encode ts; input_size = length (encode ts); output_maxsize = maxsize }))
unfolding decompress start
decompress-encode ts maxsize are room =
    let b : Buffers = record {
      input = encode ts;
      input_size = length (encode ts);
      output_maxsize = maxsize;
    } in
    Returns-map (Decoded b ts (start b)) _ _ (λ x y. (ap (λ w. w.output) y.0, omega (arith, y.1)))
      (rounds-Decoded b ts 0 (suc (length (encode ts))) (start b) are
        (record {
          ahead = refl;
          all_there = refl;
          room = omega arith;
          inside = omega arith;
          due = omega arith;
        })
        (omega (arith, length-bytes_from 0 ts)))
