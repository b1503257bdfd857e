-- ===== src/Capture/Sng/Playback.antt =====
-- src/sng.cpp: `update` comes to a pause, if there is one to come to.
use adplug.Base.{ℕ, ◌+◌, ◌-◌, ◌*◌, ◌%◌, ◌^◌, ◌≤◌, ◌<◌, ◌≡◌, ◌≢◌, refl, arith}
use adplug.Base.{List, ◌∷◌, length, get_elem?, some, get_elem?-of_lt, Bool, true, false, not, ◌&&◌}
use adplug.Base.{◌==◌, leb, if◌then◌else◌, Bool-cases, inl, inr}
use adplug.Base.{ok, ◌>>=◌, Returns, Returns-bind}
use adplug.Base.Loops.{Progress, rounds, rounds-Returns}
use adplug.Base.Opl.{write}
use adplug.Capture.Sng.{Sng, Event, Header, advance, event_at, round, pause, update}

-- The song is in its array as a whole, its loop and the position are in it, and behind the loop's start
-- there is a pause, at `k`.
pub record IsPlace (k : ℕ) (events : List Event) (h : Header) (pos : ℕ) : Type 0 where
  pub all_there : length events ≡ h.length
  pub short : h.length < 2 ^ 15
  pub loops : h.loop ≤ k
  pub in_song : k < h.length
  pub at_pause : (e : Event) × (get_elem? events k ≡ some e) × (e.reg ≡ 0)
  pub here : pos < h.length

abbrev pub IsValid : ℕ → Sng → Type 0
IsValid k p = IsPlace k p.events p.header p.pos

-- The events up to the pause, over the song's end if it is behind the position.
abbrev left : ℕ → Sng → ℕ
left k p = if leb p.pos k then k - p.pos else p.header.length - p.pos + k

module _ (k : ℕ) where
  advance-IsValid :
      (p : Sng) → IsValid k p → IsValid k (advance p) × (p.pos ≢ k → left k (advance p) < left k p)
  unfolding advance
  advance-IsValid p v =
      let up : (p.pos + 1) % 2 ^ 16 ≡ p.pos + 1 = omega (arith, v.short, v.here) in
      elim (Bool-cases (leb p.header.length (p.pos + 1))) [
        | inl e ↦
            rw (up, e)
              (
                record {
                  all_there = v.all_there;
                  short = v.short;
                  loops = v.loops;
                  in_song = v.in_song;
                  at_pause = v.at_pause;
                  here = omega (arith, v.loops, v.in_song);
                },
                λ ne. ground (arith, v.loops, v.in_song, v.here),
              )
        | inr e ↦
            rw (up, e)
              (
                record {
                  all_there = v.all_there;
                  short = v.short;
                  loops = v.loops;
                  in_song = v.in_song;
                  at_pause = v.at_pause;
                  here = ground arith;
                },
                λ ne. ground (arith, v.in_song),
              )
      ]

  -- The loop stops at an event that can be read.
  abbrev AtPause : Unit {0} × Sng → Type 0
  AtPause (_, q) = IsValid k q

  round-Progress :
      (p : Sng) → IsValid k p → Returns (Progress (IsValid k) AtPause (left k) (left k p)) (round p)
  unfolding round
  round-Progress p v =
      let (e, there) = get_elem?-of_lt p.events p.pos (omega (arith, v.all_there, v.here)) in
      elim (Bool-cases (e.reg == 0)) [
        | inl silent ↦ rw (there, silent, Returns) v
        | inr sounds ↦
            let q : Sng = record p { opl = write e.reg e.val ∷ p.opl } in
            let (v', less) = advance-IsValid q v in
            let (e', there', none_there) = v.at_pause in
            let elsewhere : p.pos ≢ k =
              λ same. grind (arith, there, there', same, none_there, sounds) in
            rw (there, sounds, Returns) (v', less elsewhere)
      ]

  -- After `update` the place is one of the song, and the answer is whether its end has not come.
  abbrev pub Stays : Bool × Sng → Type 0
  Stays (more, q) = IsValid k q × (more ≡ not q.songend)

  either-IsValid :
      (b : Bool) (p q : Sng) → IsValid k p → IsValid k q → IsValid k (if b then p else q)
  either-IsValid true p q v w = v
  either-IsValid false p q v w = w

  pause-Stays : (e : Event) (p : Sng) → IsValid k p → Stays (pause e p)
  unfolding pause
  pause-Stays e p v =
      let p0 : Sng = record p { opl = write e.reg e.val ∷ p.opl } in
      let p1 : Sng = if p.header.compressed then p else p0 in
      let v1 : IsValid k p1 = either-IsValid p.header.compressed p p0 v v in
      let p2 : Sng = if e.val == 0 then p1 else (record p1 { del = e.val - 1 }) in
      let v2 : IsValid k p2 =
        either-IsValid (e.val == 0) p1 (record p1 { del = e.val - 1 }) v1 v1 in
      ((advance-IsValid p2 v2).0, refl)

  -- Behind the loop the event at the position is there.
  pause_there-Stays :
      (x : Unit {0} × Sng) → AtPause x → Returns Stays (event_at x.1 >>= λ e. ok (pause e x.1))
  pause_there-Stays (_, q) v =
      let (e, there) = get_elem?-of_lt q.events q.pos (omega (arith, v.all_there, v.here)) in
      rw (there, Returns) (pause-Stays e q v)

  -- On a song that is all in its array, with its loop's start and its position in it and with a pause at
  -- or behind the loop's start, `update` reads inside of the array only and ends after at most two rounds
  -- for each event. It keeps the song so, and answers whether the song's end has not come.
  pub update-Stays : (p : Sng) → IsValid k p → Returns Stays (update (p.header.length * 2) p)
  unfolding update
  update-Stays p v = elim (Bool-cases (p.header.compressed && not (p.del == 0))) [
    | inl waits ↦ rw (waits, Returns) (v, refl)
    | inr plays ↦ rw plays (
        Returns-bind AtPause Stays (rounds (p.header.length * 2) round p) _
          (rounds-Returns (IsValid k) AtPause (left k) round round-Progress (p.header.length * 2) p
            v (ground (arith, v.in_song, v.here)))
          pause_there-Stays)
  ]
