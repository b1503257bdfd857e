-- ===== src/Sixdepack/Decode/Tests.antt =====
-- src/sixdepack.cpp on small inputs.
use adplug.Base.{◌≡◌, refl, [], ◌∷◌, arith, Returns, ok}
use adplug.Base.Loops.{rounds}
use adplug.Sixdepack.{Tree, inittree, sibling, halve, updatefreq, swap, promote, climb, updatemodel}
use adplug.Sixdepack.Decode.{
  copybits, copymin, bitvalue, next_bit, inputcode, walk, uncompress, put_byte,
}
use adplug.Sixdepack.Decode.{byte_back, copy, copy_code, put_code, round, do_decode, decode}
use adplug.Sixdepack.Model.{updatemodel-IsValid}
use adplug.Sixdepack.Shape.{IsValid, inittree-IsValid}
use adplug.Sixdepack.Decode.Bounds.{IsUnpacked, decode-IsUnpacked}

abbrev memory : Tree
memory = record { leftc = λ i. 0; rghtc = λ i. 0; dad = λ i. 0; freq = λ i. 0 }

-- An `A` and the end of the file.
decode_one : decode (52262 ∷ 61440 ∷ []) 4 10 memory ≡ ok (1, 65 ∷ [])
unfolding decode do_decode rounds round uncompress walk next_bit inittree updatemodel sibling
    updatefreq climb halve promote swap put_code put_byte
decode_one = refl

-- `AB`, and four bytes from two before the start on: two zeros, and `AB` once more.
decode_copy :
    decode (52267 ∷ 56385 ∷ 15360 ∷ []) 6 10 memory ≡ ok (6, 66 ∷ 65 ∷ 0 ∷ 0 ∷ 66 ∷ 65 ∷ [])
unfolding decode do_decode rounds round uncompress walk next_bit inittree updatemodel sibling
    updatefreq climb halve promote swap put_code put_byte copy_code copybits copymin inputcode
    bitvalue copy byte_back
decode_copy = refl

updatemodel-IsValid_example : Returns IsValid (updatemodel 65 (inittree memory))
updatemodel-IsValid_example =
    updatemodel-IsValid 65 (inittree memory) (inittree-IsValid memory) (omega arith)

decode-IsUnpacked_example : Returns (IsUnpacked 10) (decode (52262 ∷ 61440 ∷ []) 4 10 memory)
decode-IsUnpacked_example = decode-IsUnpacked (52262 ∷ 61440 ∷ []) 4 10 memory (omega arith)
