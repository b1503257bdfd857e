-- ===== src/Protrack/Slides.antt =====
-- src/protrack.cpp: what the slides make of a channel's pitch.
use adplug.Base.{ℕ, ◌+◌, ◌*◌, ◌^◌, ◌≤◌, ◌<◌, ◌≡◌, ltb, ◌==◌, if◌then◌else◌, arith}
use adplug.Base.{
  refl, ◌⊎◌, inl, inr, order_cases, Option, none, some, get_elem?, lt-of_get_elem?,
  get_elem?-set_self, deref, ok, Returns, Returns-map, if_both, ap, sym, ◌∙◌, zero, suc,
}
use adplug.Protrack.{Mod, channel_at, set_channel, modify, setfreq, set_opl_chip, tone_portamento}
use adplug.Protrack.{Channel, slide_up, slide_down, pitch, target, arrive, rise, fall}

slide_up-target : (amount : ℕ) (c : Channel) → target (slide_up amount c) ≡ target c
unfolding slide_up
slide_up-target amount c = ground arith

slide_down-target : (amount : ℕ) (c : Channel) → target (slide_down amount c) ≡ target c
unfolding slide_down
slide_down-target amount c = ground arith

rise-le : (info : ℕ) (c : Channel) → pitch c ≤ target c → pitch (rise info c) ≤ target c
unfolding rise arrive
rise-le info c h = ground (arith, slide_up-target info c)

rise-target : (info : ℕ) (c : Channel) → target (rise info c) ≡ target c
unfolding rise arrive
rise-target info c = ground (arith, slide_up-target info c)

rise-above : (info : ℕ) (c : Channel) → target c ≤ pitch c → rise info c ≡ c
unfolding rise
rise-above info c h = ground arith

fall-below : (info : ℕ) (c : Channel) → pitch c ≤ target c → fall info c ≡ c
unfolding fall
fall-below info c h = ground arith

fall-ge : (info : ℕ) (c : Channel) → target c ≤ pitch c → target c ≤ pitch (fall info c)
unfolding fall arrive
fall-ge info c h = ground (arith, slide_down-target info c)

-- The pitch is on the same side of the note as before, or there.
abbrev pub OnSide : Channel → Channel → Type 0
OnSide c d =
    ((pitch c ≤ target c) × (pitch d ≤ target c)) ⊎ ((target c ≤ pitch c) × (target c ≤ pitch d))

glide-OnSide : (info : ℕ) (c : Channel) → OnSide c (fall info (rise info c))
glide-OnSide info c = elim (order_cases (pitch c) (target c)) [
  | inl below ↦
      let up : pitch (rise info c) ≤ target c = rise-le info c (omega arith) in
      let still = fall-below info (rise info c) (omega (arith, rise-target info c)) in
      inl (omega arith, rw still up)
  | inr above ↦
      let high : target c ≤ pitch c = ground arith in
      inr (high, rw (rise-above info c high) (fall-ge info c high))
]

deref-eq_ok : (o : Option Channel) (c : Channel) → deref o ≡ ok c → o ≡ some c
deref-eq_ok none c e = cc
deref-eq_ok (some d) c e = cc

channel_at-set :
    (chan : ℕ) (p : Mod) (c d : Channel)
    → channel_at p chan ≡ ok c
    → channel_at (set_channel chan d p) chan ≡ ok d
unfolding channel_at
channel_at-set chan p c d there =
    let inside =
      lt-of_get_elem? p.channel chan c (deref-eq_ok (get_elem? p.channel chan) c there) in
    rw (get_elem?-set_self p.channel chan d inside) refl

set_opl_chip-channel : (chan : ℕ) (p : Mod) → (set_opl_chip chan p).channel ≡ p.channel
unfolding set_opl_chip
set_opl_chip-channel chan p =
    let newchip : ℕ = if ltb chan 9 then 0 else 1 in
    if_both (λ (q : Mod). q.channel ≡ p.channel) (newchip == p.curchip) _ _ refl refl

setfreq-channel :
    (chan : ℕ) (p : Mod) (d : Channel)
    → channel_at p chan ≡ ok d
    → Returns (λ (q : Mod). channel_at q chan ≡ ok d) (setfreq chan p)
unfolding setfreq channel_at
setfreq-channel chan p d there =
    let there' : deref (get_elem? (set_opl_chip chan p).channel chan) ≡ ok d =
      ap (λ cs. deref (get_elem? cs chan)) (set_opl_chip-channel chan p) ∙ there in
    rw (there', Returns) there'

-- A tone portamento leaves the channel's pitch on the side of its note that it was on, or at the note,
-- whatever the speed is.
pub tone_portamento-OnSide :
    (chan info : ℕ) (p : Mod) (c : Channel)
    → channel_at p chan ≡ ok c
    → Returns
        (λ (q : Mod). (d : Channel) × (channel_at q chan ≡ ok d) × OnSide c d)
        (tone_portamento chan info p)
unfolding tone_portamento modify
tone_portamento-OnSide chan info p c there =
    let d = fall info (rise info c) in
    let q = set_channel chan d p in
    rw there (
      Returns-map (λ (r : Mod). channel_at r chan ≡ ok d) _ (setfreq chan q)
        (λ r at. (d, at, glide-OnSide info c))
        (setfreq-channel chan q d (channel_at-set chan p c d there)))

-- One tick of a rise below the note gets on, as long as the note is one that a slide can come to.
rise-nearer :
    (info : ℕ) (c : Channel)
    → 0 < info
    → info < 2 ^ 8
    → c.freq < 2 ^ 10
    → c.oct ≤ 7
    → target c ≤ 7 * 2 ^ 10 + 686
    → pitch c < target c
    → (pitch (rise info c) ≡ target c)
      ⊎ ((pitch c < pitch (rise info c)) × ((rise info c).freq < 2 ^ 10) × ((rise info c).oct ≤ 7))
unfolding rise arrive slide_up
rise-nearer info c some_speed byte low octave near below = ground arith

fall-nearer :
    (info : ℕ) (c : Channel)
    → 0 < info
    → info ≤ c.freq
    → c.freq < 2 ^ 10
    → 342 ≤ target c
    → target c < pitch c
    → (pitch (fall info c) ≡ target c)
      ⊎ ((target c < pitch (fall info c)) × (pitch (fall info c) < pitch c))
unfolding fall arrive slide_down
fall-nearer info c some_speed enough low note above = ground arith

-- A pitch that has come to the note, or is between where it was and the note.
abbrev pub IsNearer : Channel → Channel → Type 0
IsNearer c d =
    (pitch d ≡ target c)
    ⊎ (((pitch c < pitch d) × (pitch d < target c)) ⊎ ((target c < pitch d) × (pitch d < pitch c)))

module _ (info : ℕ) (c : Channel) (some_speed : 0 < info) (byte : info < 2 ^ 8)
    (enough : info ≤ c.freq) (low : c.freq < 2 ^ 10) (octave : c.oct ≤ 7) (lowest : 342 ≤ target c)
    (highest : target c ≤ 7 * 2 ^ 10 + 686) where
  glide-IsNearer : IsNearer c (fall info (rise info c))
  glide-IsNearer = elim (order_cases (pitch c) (target c)) [
    | inl below ↦
        let d = rise info c in
        let up : pitch d ≤ target c = rise-le info c (omega arith) in
        let still = fall-below info d (omega (arith, rise-target info c)) in
        let nearer : (pitch d ≡ target c) ⊎ ((pitch c < pitch d) × (pitch d ≤ target c)) =
          elim (rise-nearer info c some_speed byte low octave highest below) [
            | inl there ↦ inl there
            | inr on ↦ inr (on.0, up)
          ] in
        rw still (ground arith)
    | inr (inl there) ↦
        let still : fall info (rise info c) ≡ c =
          ap (fall info) (rise-above info c (omega arith)) ∙ fall-below info c (omega arith) in
        rw still (inl there)
    | inr (inr above) ↦
        let near = fall-nearer info c some_speed enough low lowest above in
        rw (rise-above info c (omega arith)) (ground arith)
  ]

  -- A tone portamento of a speed from 1 to 255 moves the channel's pitch nearer to its note and not
  -- past it, or brings it to the note or keeps it there. The channel's frequency is to be below
  -- 1024 and no less than the speed, its octave no higher than 7, and the note's pitch at least 342
  -- in octave 0 and at most 686 in octave 7.
  pub tone_portamento-IsNearer :
      (chan : ℕ) (p : Mod)
      → channel_at p chan ≡ ok c
      → Returns
          (λ (q : Mod). (d : Channel) × (channel_at q chan ≡ ok d) × IsNearer c d)
          (tone_portamento chan info p)
  unfolding tone_portamento modify
  tone_portamento-IsNearer chan p there =
      let d = fall info (rise info c) in
      let q = set_channel chan d p in
      rw there (
        Returns-map (λ (r : Mod). channel_at r chan ≡ ok d) _ (setfreq chan q)
          (λ r at. (d, at, glide-IsNearer))
          (setfreq-channel chan q d (channel_at-set chan p c d there)))

-- The tone portamento's change of a channel, once for each of `n` ticks.
pub glide : ℕ → ℕ → Channel → Channel
glide zero info c = c
glide (suc n) info c = glide n info (fall info (rise info c))

-- Once there, the channel stays.
glide-there : (n info : ℕ) (c : Channel) → pitch c ≡ target c → pitch (glide n info c) ≡ target c
unfolding glide
glide-there zero info c there = there
glide-there (suc n) info c there =
    let stays : fall info (rise info c) ≡ c =
      ap (fall info) (rise-above info c (omega arith)) ∙ fall-below info c (omega arith) in
    ap (λ d. pitch (glide n info d)) stays ∙ glide-there n info c there

-- From below its note or at it, a tone portamento of a speed from 1 to 255 brings the channel to
-- the note's pitch after no more ticks than there are steps of pitch between them, and leaves it
-- there. The channel's frequency is to be below 1024, its octave no higher than 7, and the note's
-- pitch no higher than 686 in octave 7.
pub glide-arrives :
    (n info : ℕ) (c : Channel)
    → 0 < info
    → info < 2 ^ 8
    → c.freq < 2 ^ 10
    → c.oct ≤ 7
    → target c ≤ 7 * 2 ^ 10 + 686
    → pitch c ≤ target c
    → target c ≤ pitch c + n
    → pitch (glide n info c) ≡ target c
unfolding glide
glide-arrives zero info c some_speed byte low octave near below close = omega arith
glide-arrives (suc n) info c some_speed byte low octave near below close =
    elim (order_cases (pitch c) (target c)) [
      | inl under ↦
          let up = rise info c in
          let same : target up ≡ target c = rise-target info c in
          let kept : pitch up ≤ target c = rise-le info c (omega arith) in
          let still : pitch (glide n info (fall info up)) ≡ pitch (glide n info up) =
            ap (λ d. pitch (glide n info d)) (fall-below info up (omega arith)) in
          elim (rise-nearer info c some_speed byte low octave near under) [
            | inl there ↦ still ∙ glide-there n info up (there ∙ sym same) ∙ same
            | inr (nearer, low', octave') ↦
                still
                ∙ glide-arrives n info up some_speed byte low' octave' (omega arith) (omega arith)
                    (omega arith)
                ∙ same
          ]
      | inr over ↦ glide-there (suc n) info c (ground arith)
    ]
