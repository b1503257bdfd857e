-- ===== src/Hsc/Rewound.antt =====
-- src/hsc.cpp: `ChscPlayer::rewind` makes a player of arrays that hold anything.
use adplug.Base.{ℕ, zero, suc, ◌+◌, ◌<◌, ◌≡◌, refl, sym, ◌∙◌, arith, inl, inr}
use adplug.Base.{List, [], ◌∷◌, length, length-set, get_elem?, set, All, some}
use adplug.Base.{
  get_elem?-of_lt, get_elem?-set_self, get_elem?-set_ne, lt-of_get_elem?, order_cases,
}
use adplug.Base.{ap, Returns, Returns-bind, Returns-map, Returns-ok}
use adplug.Hsc.{Hsc, Note, Chan, channel_at, setvolume, instrument}
use adplug.Hsc.{setinstr, volumes, init_channels, rewind}
use adplug.Hsc.Safety.{HasSong, IsPlayer, instr_at-ok, instrument-Returns, op_table-ok}

some-inj : {c d : Chan} → some c ≡ some d → c ≡ d
some-inj e = cc

module _ (S : Note → Type 0) where
  -- The first `n` channels have an instrument of the 128; the arrays have their sizes.
  pub record Begun (n : ℕ) (p : Hsc) : Type 0 where
    pub song : HasSong S p.instr p.song p.patterns
    pub channel_count : length p.channel ≡ 9
    pub adl_count : length p.adl_freq ≡ 9
    pub row : p.pattpos < 64
    pub order : p.songpos < 128
    pub insts : (k : ℕ) (c : Chan) → k < n → get_elem? p.channel k ≡ some c → c.inst < 128

  setvolume-Begun :
      (n chan volc volm : ℕ) (p : Hsc) (c : Chan)
      → Begun n p
      → chan < 9
      → get_elem? p.channel chan ≡ some c
      → c.inst < 128
      → Returns (Begun n) (setvolume chan volc volm p)
  unfolding setvolume channel_at
  setvolume-Begun n chan volc volm p c b h there small =
      let (b2, e2) = instr_at-ok p b.song c.inst 2 small (omega arith) in
      let (b3, e3) = instr_at-ok p b.song c.inst 3 small (omega arith) in
      let (b8, e8) = instr_at-ok p b.song c.inst 8 small (omega arith) in
      let (op, eo) = op_table-ok chan h in
      rw (there, e2, e3, e8, eo, Returns)
        (record {
          song = b.song;
          channel_count = b.channel_count;
          adl_count = b.adl_count;
          row = b.row;
          order = b.order;
          insts = b.insts;
        })

  set_inst-lt :
      (i k : ℕ) (p : Hsc) (c d : Chan)
      → Begun i p
      → i < 9
      → c.inst ≡ i
      → k < suc i
      → get_elem? (set p.channel i c) k ≡ some d
      → d.inst < 128
  set_inst-lt i k p c d b hi is_i hk at = elim (order_cases k i) [
    | inl below ↦
        b.insts k d below (sym (get_elem?-set_ne p.channel i k c (λ e. absurd (omega arith))) ∙ at)
    | inr other ↦
        let same : i ≡ k = ground arith in
        let inside : i < length p.channel = omega (arith, b.channel_count) in
        let self : get_elem? (set p.channel i c) i ≡ some c =
          get_elem?-set_self p.channel i c inside in
        let here : get_elem? (set p.channel i c) k ≡ some c =
          ap (λ j. get_elem? (set p.channel i c) j) (sym same) ∙ self in
        let e : c ≡ d = some-inj (sym here ∙ at) in
        let small : c.inst < 128 = omega (arith, is_i) in rw e at small
  ]

  setinstr-Begun : (i : ℕ) (p : Hsc) → Begun i p → i < 9 → Returns (Begun (suc i)) (setinstr i i p)
  unfolding setinstr channel_at
  setinstr-Begun i p b h =
      let (c, ec) = get_elem?-of_lt p.channel i (omega (arith, b.channel_count)) in
      let (op, eo) = op_table-ok i h in
      let (ins, ei, _) =
        Returns-ok _ (instrument p i) (instrument-Returns p b.song i (omega arith)) in
      let c1 : Chan = record c { inst = i } in
      let inside : i < length p.channel = omega (arith, b.channel_count) in
      rw (ec, eo, ei)
        (setvolume-Begun (suc i) i (volumes ins).0 (volumes ins).1 _ c1
          (record {
            song = b.song;
            channel_count = omega (arith, length-set p.channel i c1, b.channel_count);
            adl_count = b.adl_count;
            row = b.row;
            order = b.order;
            insts = λ k d hk at. set_inst-lt i k p c1 d b h refl hk at;
          })
          h (get_elem?-set_self p.channel i c1 inside) (omega arith))

  init_channels-Begun :
      (n i : ℕ) (p : Hsc) → Begun i p → i + n ≡ 9 → Returns (Begun 9) (init_channels n i p)
  unfolding init_channels
  init_channels-Begun zero i p b e = let nine : i ≡ 9 = omega arith in rw nine at b
  init_channels-Begun (suc n) i p b e =
      Returns-bind (Begun (suc i)) (Begun 9) (setinstr i i p) _ (setinstr-Begun i p b (omega arith))
        (λ q b'.
          let next : suc i ≡ i + 1 = omega arith in
          init_channels-Begun n (i + 1) q (rw next at b') (omega arith))

All-of_get_elem? :
    (P : Chan → Type 0) (xs : List Chan)
    → ((k : ℕ) (c : Chan) → get_elem? xs k ≡ some c → P c)
    → All P xs
All-of_get_elem? P [] h = tt
All-of_get_elem? P (x ∷ xs) h = (h 0 x refl, All-of_get_elem? P xs (λ k c e. h (suc k) c e))

Begun-IsPlayer : (S : Note → Type 0) (p : Hsc) → Begun S 9 p → IsPlayer S p
Begun-IsPlayer S p b = (
  b.song,
  record {
    channel_count = b.channel_count;
    insts =
        All-of_get_elem? (λ (c : Chan). c.inst < 128) p.channel
          (λ k c e.
            b.insts k c (omega (arith, lt-of_get_elem? p.channel k c e, b.channel_count)) e);
    adl_count = b.adl_count;
    row = b.row;
    order = b.order;
  },
)

-- A rewound player is valid if its song is and its arrays have their sizes, whatever they hold.
pub rewind-rebuilt :
    {S : Note → Type 0}
    → (p : Hsc) → HasSong S p.instr p.song p.patterns
    → length p.channel ≡ 9
    → length p.adl_freq ≡ 9
    → Returns (IsPlayer S) (rewind p)
unfolding rewind
rewind-rebuilt {S = S} p song channels adl =
    Returns-map (Begun S 9) (IsPlayer S) _ (Begun-IsPlayer S) (
      init_channels-Begun S 9 0 _
        (record {
          song = song;
          channel_count = channels;
          adl_count = adl;
          row = omega arith;
          order = omega arith;
          insts = λ k c h e. absurd (omega arith);
        })
        refl)
