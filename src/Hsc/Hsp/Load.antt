-- ===== src/Hsc/Hsp/Load.antt =====
-- src/hsp.cpp: `ChspLoader::load` on files of an even size.
use adplug.Base.{ℕ, zero, suc, ◌+◌, ◌-◌, ◌*◌, ◌%◌, ◌≤◌, ◌≡◌, refl, ap, arith, List, [], ◌∷◌}
use adplug.Base.{
  ◌++◌, drop, length, length-append, length-drop_le, not, ltb, if◌then◌else◌, if_both,
}
use adplug.Base.{if_split, Returns, Returns-bind, Returns-ok}
use adplug.Base.{OnSome, elim-OnSome}
use adplug.Base.Stream.{BinIo, read_bytes, length-read_bytes}
use adplug.Provider.{Provider, extension, filesize}
use adplug.Hsc.{Hsc, rewind}
use adplug.Hsc.Packed.{slice, slice-ok, instruments, length-instruments, instruments-sizes}
use adplug.Hsc.Packed.{copy_patterns, copy_patterns-Filled, Filled, Any, HasArrays}
use adplug.Hsc.Safety.{IsPlayer, HasSong}
use adplug.Hsc.Rewound.{rewind-rebuilt}
use adplug.Hsc.Hsp.{hsp_ext, unpack, block, convert, read_packed, load}
use adplug.Hsc.Hsp.Runs.{pack, expand, IsExpanded, unpack-IsExpanded}

-- An even number of bytes is that of some runs.
pairs : (cmp : List ℕ) → length cmp % 2 ≡ 0 → (runs : List (ℕ × ℕ)) × (cmp ≡ pack runs)
unfolding pack
pairs [] even = ([], refl)
pairs (c ∷ []) even = absurd (omega arith)
pairs (c ∷ v ∷ cmp) even =
    let (runs, e) = pairs cmp (omega arith) in ((c, v) ∷ runs, ap (λ (xs : List ℕ). c ∷ v ∷ xs) e)

length-block : (n at : ℕ) (org : ℕ → ℕ) → length (block n at org) ≡ n
unfolding block
length-block zero at org = refl
length-block (suc n) at org = ap suc (length-block n (at + 1) org)

convert-IsPlayer :
    (orgsize : ℕ) (org : ℕ → ℕ) (p : Hsc)
    → HasArrays p
    → orgsize ≤ 59187
    → Returns (OnSome (IsPlayer Any)) (convert orgsize org p)
unfolding convert
convert-IsPlayer orgsize org p arrays fits =
    if_split (Returns (OnSome (IsPlayer Any))) (ltb orgsize 1587) _ _ (λ small. tt)
      (λ whole.
        let bytes = block orgsize 0 org in
        let sized : length bytes ≡ orgsize = length-block orgsize 0 org in
        let large : 1587 ≤ orgsize = ground arith in
        let part = λ (at n : ℕ) (h : at + n ≤ length bytes).
          Returns-ok (λ (cs : List ℕ). length cs ≡ n) (slice at n bytes) (slice-ok at n bytes h) in
        let (insts, e1, width) = part 0 1536 (omega arith) in
        let (orders, e2, o51) = part 1536 51 (omega arith) in
        let (notes, e3, n_notes) = part 1587 (orgsize - 128 * 12 - 51) (omega arith) in
        let (patterns, e4, filled) = Returns-ok Filled (copy_patterns notes p.patterns) (
          copy_patterns-Filled Any notes p.patterns (omega (arith, n_notes, fits))
            arrays.pattern_count arrays.pattern_sizes) in
        let orders_all = orders ++ drop 51 p.song in
        let hsc : Hsc = record p {
          instr = instruments 128 insts;
          song = orders_all;
          patterns = patterns;
        } in
        let has_song : HasSong Any (instruments 128 insts) orders_all patterns = record {
          instr_count = length-instruments 128 insts;
          instr_sizes = instruments-sizes 128 insts (omega (arith, width));
          song_size = omega (
            arith,
            length-append orders (drop 51 p.song),
            o51,
            arrays.song_size,
            length-drop_le 51 p.song (omega (arith, arrays.song_size)),
          );
          pattern_count = filled.0;
          pattern_sizes = filled.1;
        } in
        rw (e1, e2, e3, e4)
          (Returns-bind (IsPlayer Any) (OnSome (IsPlayer Any)) (rewind hsc) _
            (rewind-rebuilt hsc has_song arrays.channels arrays.adl_freqs) (λ q v. v)))

module _ (io : BinIo) where
  -- Of an HSP file of an even size load ends, without an access outside of its buffers and of the
  -- arrays of the player, which have the sizes that the class gives them and may hold anything. If
  -- it accepts the file the player's arrays are whole, it stands on a row of the song, and its
  -- channels have instruments of the 128.
  pub load-IsPlayer :
      (memory : ℕ → ℕ) (fp : Provider io) (filename : List ℕ) (p : Hsc)
      → HasArrays p
      → OnSome (λ (f : io.Stream). (filesize io f).0 % 2 ≡ 0) (fp.open_file filename)
      → Returns (OnSome (IsPlayer Any)) (load io memory fp filename p)
  unfolding load read_packed
  load-IsPlayer memory fp filename p v even =
      let R = Returns (OnSome (IsPlayer Any)) in
      elim-OnSome (λ (f : io.Stream). (filesize io f).0 % 2 ≡ 0) R (fp.open_file filename) _ _ even
        tt
        (λ f is_even.
          let size = (filesize io f).0 in
          let x = io.read_int 2 (filesize io f).1 in
          let cmp = (read_bytes io size x.1).0 in
          let (runs, e) = pairs cmp (rw (length-read_bytes io size x.1) is_even) in
          if_both R (not (extension filename hsp_ext)) _ _ tt (
            if_split R (ltb 59187 x.0) _ _ (λ large. tt)
              (λ on. rw e (
                Returns-bind (IsExpanded x.0 (expand runs)) (OnSome (IsPlayer Any))
                  (unpack (pack runs) x.0 memory) _ (unpack-IsExpanded runs x.0 memory)
                  (λ y _.
                    convert-IsPlayer (if ltb y.1.j x.0 then y.1.j else x.0) y.1.org p v
                      (ground arith))))))
