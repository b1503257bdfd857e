-- ===== src/Lzss/Tests.antt =====
-- A text with a repetition that runs into itself, and an input that breaks off.
use adplug.Base.{List, [], ◌∷◌, refl, arith, ◌≡◌, Returns}
use adplug.Lzss.{Buffers, Lzss, decompress}
use adplug.Lzss.Bounds.{IsInside, decompress-IsInside}
use adplug.Lzss.Tokens.{Token, byte, again, expand_all, first_window, encode}
use adplug.Lzss.RoundTrip.{decompress-encode}

abbrev broken : Buffers
broken = record { input = 3 ∷ 97 ∷ 98 ∷ 255 ∷ []; input_size = 4; output_maxsize = 10 }

decompress-IsInside_example :
    Returns (λ (x : Unit {0} × Lzss). IsInside broken x.1) (decompress broken)
decompress-IsInside_example = decompress-IsInside broken (record {
  there = omega arith;
  bytes = (omega arith, (omega arith, (omega arith, (omega arith, tt))));
})

-- The window begins at 4078: the copy is of the two bytes before it, five times over.
abbrev tokens : List Token
tokens = byte 97 ∷ byte 98 ∷ again 4078 10 ∷ []

written : encode tokens ≡ 3 ∷ 97 ∷ 98 ∷ 238 ∷ 247 ∷ []
written = refl

meant :
    (expand_all tokens first_window).output
    ≡ 98 ∷ 97 ∷ 98 ∷ 97 ∷ 98 ∷ 97 ∷ 98 ∷ 97 ∷ 98 ∷ 97 ∷ 98 ∷ 97 ∷ []
meant = refl

decompress-encode_example :
    Returns
      (λ (x : Unit {0} × Lzss).
        (x.1.output ≡ (expand_all tokens first_window).output) × (x.1.output_size ≡ 12))
      (decompress (record { input = encode tokens; input_size = 5; output_maxsize = 100 }))
decompress-encode_example =
    decompress-encode tokens 100
      (omega arith, (omega arith, ((omega arith, omega arith, omega arith), tt))) (omega arith)
