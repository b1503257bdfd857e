-- ===== src/Hsc/Mtk/Load.antt =====
-- src/mtk.cpp: what `CmtkLoader::load` accepts is a player whose arrays are whole.
use adplug.Base.{ℕ, zero, suc, ◌+◌, ◌-◌, ◌*◌, ◌%◌, ◌^◌, ◌≤◌, ◌≡◌, refl, ap, arith}
use adplug.Base.{List, [], ◌∷◌, length}
use adplug.Base.{Bool, true, false, not, ◌||◌, ◌==◌}
use adplug.Base.{ltb, if◌then◌else◌, if_both, if_split, Option, none, some}
use adplug.Base.{ok, ◌>>=◌, Returns, Returns-bind, Returns-ok, elim-OnSome, OnSome, All}
use adplug.Base.Stream.{BinIo, same_bytes}
use adplug.Provider.{Provider}
use adplug.Hsc.{Hsc, rewind}
use adplug.Hsc.Packed.{slice, slice-ok, instruments, length-instruments, instruments-sizes}
use adplug.Hsc.Packed.{copy_patterns, copy_patterns-Filled, Filled, Any, HasArrays}
use adplug.Hsc.Safety.{IsPlayer, HasSong}
use adplug.Hsc.Rewound.{rewind-rebuilt}
use adplug.Hsc.Mtk.Unpack.{Ends, unpack-Ends}
use adplug.Hsc.Mtk.{mtk_id, Unpacked, Mtk}
use adplug.Hsc.Mtk.{unpack, in_order, names, text_of, convert, read_header, load}

length-in_order : (org bytes : List ℕ) → length (in_order org bytes) ≡ length org + length bytes
unfolding in_order
length-in_order [] bytes = omega arith
length-in_order (b ∷ org) bytes = omega (arith, length-in_order org (b ∷ bytes))

text_of-le : (cs : List ℕ) → length (text_of cs) ≤ length cs
unfolding text_of
text_of-le [] = omega arith
text_of-le (c ∷ cs) =
    if_both (λ (t : List ℕ). length t ≤ length (c ∷ cs)) (c == 0) _ _ (omega arith)
      (omega (arith, text_of-le cs))

-- A text that an array of 34 characters has room for, with its null.
abbrev pub IsName : List ℕ → Type 0
IsName name = length name ≤ 33

abbrev pub Named : ℕ → List (List ℕ) → Type 0
Named n texts = (length texts ≡ n) × All IsName texts

text_of-IsName : (cs : List ℕ) → length cs ≡ 33 → IsName (text_of cs)
text_of-IsName cs l = omega (arith, l, text_of-le cs)

names-Named :
    (n at : ℕ) (org : List ℕ) → at + 34 * n ≤ length org → Returns (Named n) (names n at org)
unfolding names
names-Named zero at org h = (refl, tt)
names-Named (suc n) at org h =
    Returns-bind (λ (cs : List ℕ). length cs ≡ 33) (Named (suc n)) (slice (at + 1) 33 org) _
      (slice-ok (at + 1) 33 org (omega arith))
      (λ cs l.
        Returns-bind (Named n) (Named (suc n)) (names n (at + 34) org) _
          (names-Named n (at + 34) org (omega arith))
          (λ rest (count, all). (ap suc count, (text_of-IsName cs l, all))))

-- What a loaded player is: its arrays have their sizes, and its texts fit.
pub record IsUsable (q : Mtk) : Type 0 where
  pub player : IsPlayer Any q.hsc
  pub has_title : IsName q.title
  pub has_composer : IsName q.composer
  pub named : Named 128 q.instname

-- The bytes of a whole file become a player.
convert-IsUsable :
    (org : List ℕ) (p : Mtk)
    → HasArrays p.hsc
    → 6085 ≤ length org
    → Returns IsUsable (convert org p)
unfolding convert
convert-IsUsable org p arrays whole =
    let cnt = length org - 6085 in
    let some_notes = if ltb 57600 cnt then 57600 else cnt in
    let inside : 6085 + some_notes ≤ length org = ground (arith, whole) in
    let fits : some_notes ≤ 57600 = ground arith in
    let part = λ (at n : ℕ) (h : at + n ≤ length org).
      Returns-ok (λ (cs : List ℕ). length cs ≡ n) (slice at n org) (slice-ok at n org h) in
    let (title, e1, t33) = part 1 33 (omega arith) in
    let (composer, e2, c33) = part 35 33 (omega arith) in
    let (instname, e3, named) =
      Returns-ok (Named 128) (names 128 68 org) (names-Named 128 68 org (omega arith)) in
    let (insts, e4, width) = part 4420 1536 (omega arith) in
    let (order, e5, o128) = part 5956 128 (omega arith) in
    let (notes, e6, n_notes) = part 6085 some_notes inside in
    let (patterns, e7, filled) = Returns-ok Filled (copy_patterns notes p.hsc.patterns) (
      copy_patterns-Filled Any notes p.hsc.patterns (omega (arith, n_notes, fits))
        arrays.pattern_count arrays.pattern_sizes) in
    let hsc : Hsc = record p.hsc {
      instr = instruments 128 insts;
      song = order;
      patterns = patterns;
    } in
    let has_song : HasSong Any (instruments 128 insts) order patterns = record {
      instr_count = length-instruments 128 insts;
      instr_sizes = instruments-sizes 128 insts (omega (arith, width));
      song_size = o128;
      pattern_count = filled.0;
      pattern_sizes = filled.1;
    } in
    rw (e1, e2, e3, e4, e5, e6, e7)
      (Returns-bind (IsPlayer Any) IsUsable (rewind hsc) _
        (rewind-rebuilt hsc has_song arrays.channels arrays.adl_freqs)
        (λ q v. record {
          player = v;
          has_title = text_of-IsName title t33;
          has_composer = text_of-IsName composer c33;
          named = named;
        }))

opened {ℓ} : {A : Type ℓ} → (o : Option A) → OnSome (λ (a : A). Unit {0}) o
opened none = tt
opened (some a) = tt

module _ (io : BinIo) where
  read_header-whole :
      (f : io.Stream) → OnSome (λ (h : ℕ × io.Stream). 6085 ≤ h.0) (read_header io f)
  unfolding read_header
  read_header-whole f =
      let (id, f1) = io.read_buffer 18 f in
      let size = (io.read_int 2 (io.read_int 2 f1).1).0 % 2 ^ 16 in
      if_split (OnSome (λ (h : ℕ × io.Stream). 6085 ≤ h.0))
        (not (same_bytes id mtk_id) || ltb size 6085) _ _ (λ other. tt) (λ on. ground arith)

  unpacked-IsUsable :
      (p : Mtk) (size : ℕ)
      → HasArrays p.hsc
      → 6085 ≤ size
      → (x : Bool × (Unpacked × io.Stream)) → Ends io size x
      → Returns (OnSome IsUsable) (
          if not x.0 || ((io.error x.1.1).0 || not (io.ateof (io.error x.1.1).1))
          then ok none
          else (convert (in_order x.1.0.org []) p >>= λ q. ok (some q)))
  unpacked-IsUsable p size v whole (false, x) ends = tt
  unpacked-IsUsable p size v whole (true, x) ends =
      let org = in_order x.0.org [] in
      if_both (Returns (OnSome IsUsable)) ((io.error x.1).0 || not (io.ateof (io.error x.1).1)) _ _
        tt
        (Returns-bind IsUsable (OnSome IsUsable) (convert org p) _
          (convert-IsUsable org p v (omega (arith, length-in_order x.0.org [], ends, whole)))
          (λ q loaded. loaded))

  -- Whatever an MTK file holds, its load ends, after a round at most for each byte of the unpacked
  -- song and one, without an access outside of its buffer and of the arrays of the player, which
  -- have the sizes that the class gives them and may hold anything. If it accepts the file the
  -- player's arrays are whole, it stands on a row of the song, its channels have instruments of the
  -- 128, and the texts fit.
  pub load-IsUsable :
      (fp : Provider io) (filename : List ℕ) (p : Mtk)
      → HasArrays p.hsc
      → Returns (OnSome IsUsable) (load io fp filename p)
  unfolding load
  load-IsUsable fp filename p v =
      elim-OnSome (λ (f : io.Stream). Unit {0}) (Returns (OnSome IsUsable)) (fp.open_file filename)
        _ _ (opened (fp.open_file filename)) tt
        (λ f _.
          elim-OnSome (λ (h : ℕ × io.Stream). 6085 ≤ h.0) (Returns (OnSome IsUsable))
            (read_header io f) _ _ (read_header-whole f) tt
            (λ h whole.
              Returns-bind (Ends io h.0) (OnSome IsUsable) (unpack io h.0 h.1) _
                (unpack-Ends io h.0 h.1) (unpacked-IsUsable p h.0 v whole)))
