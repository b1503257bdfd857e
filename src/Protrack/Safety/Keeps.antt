-- ===== src/Protrack/Safety/Keeps.antt =====
-- src/protrack.cpp: the changes of a channel keep the places that it names in tables and lists.
use adplug.Base.{ℕ, ◌+◌, ◌-◌, ◌%◌, ◌^◌, ◌==◌, ltb, leb, if_both}
use adplug.Protrack.{Channel, slide_down, slide_up, arrive, rise, fall, pitch, target}
use adplug.Protrack.Safety.{Shape, IsChannel}

module _ (s : Shape) where
  abbrev P : Channel → Type 0
  P = IsChannel s

  pub slide_down-IsChannel : (amount : ℕ) (c : Channel) → P c → P (slide_down amount c)
  unfolding slide_down
  slide_down-IsChannel amount c h =
      let freq = (c.freq + 2 ^ 16 - amount) % 2 ^ 16 in
      if_both P (leb freq 342) _ _ (if_both P (c.oct == 0) _ _ h h) h

  pub slide_up-IsChannel : (amount : ℕ) (c : Channel) → P c → P (slide_up amount c)
  unfolding slide_up
  slide_up-IsChannel amount c h =
      let freq = (c.freq + amount) % 2 ^ 16 in
      if_both P (leb 686 freq) _ _ (if_both P (ltb c.oct 7) _ _ h h) h

  rise-IsChannel : (info : ℕ) (c : Channel) → P c → P (rise info c)
  unfolding rise arrive
  rise-IsChannel info c h =
      let up = slide_up info c in
      let h' : P up = slide_up-IsChannel info c h in
      if_both P (ltb (pitch c) (target c)) _ _ (if_both P (ltb (target up) (pitch up)) _ _ h' h') h

  fall-IsChannel : (info : ℕ) (c : Channel) → P c → P (fall info c)
  unfolding fall arrive
  fall-IsChannel info c h =
      let down = slide_down info c in
      let h' : P down = slide_down-IsChannel info c h in
      if_both P (ltb (target c) (pitch c)) _ _
        (if_both P (ltb (pitch down) (target down)) _ _ h' h') h

  pub portamento-IsChannel : (info : ℕ) (c : Channel) → P c → P (fall info (rise info c))
  portamento-IsChannel info c h = fall-IsChannel info (rise info c) (rise-IsChannel info c h)
