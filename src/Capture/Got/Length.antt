-- ===== src/Capture/Got/Length.antt =====
-- src/got.cpp and src/player.cpp: the length of a song of God of Thunder.
use adplug.Base.{◌<◌, ◌^◌, ◌≡◌, refl, ap, arith, length, [], ◌∷◌, ℕ, false, Returns, Returns-map}
use adplug.Base.{◌⊎◌}
use adplug.Base.Opl.{write, init}
use adplug.Player.Length.{Class, Clock, songlength, songlength-Measured, seek, seek-Goes}
use adplug.Capture.Got.{Got, update, rewind}
use adplug.Capture.Got.Playback.{Plays, Over, write_all, more, update-PlaysOn}

abbrev pub got_class : Class Got
got_class = record {
  opl = λ p. p.opl;
  set_opl = λ o p. record p { opl = o };
  update = update;
  rewind = rewind;
}

-- songlength of a GOT song with at least one event and fewer than 2^63, all of which are in its
-- array, ends, whatever the clock is, with no more updates than the song has events. It leaves the
-- chip with the calls that it had, and the player at the start of a song that goes on.
pub songlength-at_start :
    (clock : Clock Got) (p : Got)
    → length p.events ≡ p.size
    → 0 < p.size
    → p.size < 2 ^ 63
    → Returns
        (λ (x : ℕ × Got). (x.1.opl ≡ p.opl) × (x.1.pos ≡ 0) × (x.1.songend ≡ false))
        (songlength got_class clock p.size p)
unfolding rewind
songlength-at_start clock p there some_event short =
    let o = write_all p.events (write 1 32 ∷ init ∷ []) in
    Returns-map _ _ (songlength got_class clock p.size p)
      (λ x (same, (q, e, _)). (same, ap (λ r. r.pos) e, ap (λ r. r.songend) e))
      (songlength-Measured got_class clock (Plays p.size o) (Over o) (more p.size)
        (update-PlaysOn p.size o) (λ _ _. refl) p.size p
        (record {
          all_there = there;
          same_size = refl;
          short = short;
          in_song = some_event;
          towards = refl;
          going = refl;
        })
        (omega arith))

-- `seek` to any time ends, whatever the clock is, in a song that goes on or is over. The chip has received
-- the reset, the switch to OPL2 and the writes of the events up to the place, and those of the events
-- behind the place are what it lacks.
pub seek-on_way :
    (clock : Clock Got) (ms : ℕ) (p : Got)
    → length p.events ≡ p.size
    → 0 < p.size
    → p.size < 2 ^ 63
    → Returns
        (λ (q : Got).
          Plays p.size (write_all p.events (write 1 32 ∷ init ∷ p.opl)) q
          ⊎ Over (write_all p.events (write 1 32 ∷ init ∷ p.opl)) q)
        (seek got_class clock p.size ms p)
unfolding rewind
seek-on_way clock ms p there some_event short =
    let o = write_all p.events (write 1 32 ∷ init ∷ p.opl) in
    seek-Goes got_class clock (Plays p.size o) (Over o) (more p.size) (update-PlaysOn p.size o)
      p.size ms p
      (record {
        all_there = there;
        same_size = refl;
        short = short;
        in_song = some_event;
        towards = refl;
        going = refl;
      })
      (omega arith)
