-- ===== src/Capture/Got/Playback.antt =====
-- src/got.cpp: `update` plays the song from its first event to its last.
use adplug.Base.{ℕ, suc, ◌+◌, ◌-◌, ◌%◌, ◌^◌, ◌≤◌, ◌<◌, ◌≡◌, refl, sym, ◌∙◌, arith, List, [], ◌∷◌}
use adplug.Base.{drop, length, get_elem?, some, Bool, true, false, not, ◌&&◌, ◌==◌, ltb, leb}
use adplug.Base.{Bool-cases, inl, inr, get_elem?-of_lt, drop-of_get_elem?, drop-of_le}
use adplug.Base.{Returns, Returns-map}
use adplug.Base.Loops.{Round, Progress, rounds-Returns, PlaysOn, play_on}
use adplug.Base.Loops.{play_on-Returns}
use adplug.Base.Opl.{Opl, write, init}
use adplug.Capture.Got.{Got, Event, play_event, end_update, round, update, rewind}

-- The writes of the events, in order, on top of the calls so far.
abbrev pub write_all : List Event → Opl → Opl
write_all [] o = o
write_all (e ∷ es) o = write_all es (write e.reg e.val ∷ o)

-- The calls that the chip has received when the rest of the song has been played.
abbrev pub total : Got → Opl
total p = write_all (drop p.pos p.events) p.opl

-- A song that plays, at one of its events, towards the calls `o`.
pub record Plays (size : ℕ) (o : Opl) (p : Got) : Type 0 where
  pub all_there : length p.events ≡ size
  pub same_size : p.size ≡ size
  pub short : size < 2 ^ 63
  pub in_song : p.pos < size
  pub towards : total p ≡ o
  pub going : p.songend ≡ false

-- The song is over, at its start again, and the chip has received `o`.
pub record Over (o : Opl) (p : Got) : Type 0 where
  pub at_start : p.pos ≡ 0
  pub received : p.opl ≡ o
  pub ended : p.songend ≡ true

module _ (size : ℕ) (o : Opl) where
  abbrev pub left : Got → ℕ
  left p = size - p.pos

  -- An answer of `update` at a position before `before` events are left.
  abbrev pub Sent : ℕ → Bool × Got → Type 0
  Sent before = PlaysOn update (Plays size o) (Over o) left before

  abbrev GetsOn : ℕ → ℕ → Round Bool Got → Type 0
  GetsOn start before = Progress (λ p. Plays size o p × (left p ≤ start)) (Sent start) left before

  going_on :
      (songend : Bool) (start : ℕ) (p : Got)
      → songend ≡ false
      → Plays size o p
      → left p < start
      → Sent start (not songend, p)
  going_on true start p e h less = cc
  going_on false start p e h less = (h, less)

  end_update-Sent :
      (start : ℕ) (p : Got)
      → length p.events ≡ size
      → p.size ≡ size
      → size < 2 ^ 63
      → p.pos ≤ size
      → left p < start
      → total p ≡ o
      → p.songend ≡ false
      → Sent start (end_update p)
  unfolding end_update
  end_update-Sent start p there same short inside less towards going =
      elim (Bool-cases (leb p.size p.pos)) [
        | inl e ↦
            let behind : drop p.pos p.events ≡ [] =
              drop-of_le p.events p.pos (ground (arith, there)) in
            let nothing_left : p.opl ≡ total p = rw behind refl in
            rw e (record { at_start = refl; received = nothing_left ∙ towards; ended = refl })
        | inr e ↦
            let more : Plays size o (record p { timer = (p.rate, p.del) }) = record {
              all_there = there;
              same_size = same;
              short = short;
              in_song = ground (arith, same);
              towards = towards;
              going = going;
            } in
            rw e (going_on p.songend start (record p { timer = (p.rate, p.del) }) going more less)
      ]

  total-play_event :
      (e : Event) (p : Got)
      → Plays size o p
      → get_elem? p.events p.pos ≡ some e
      → (total (play_event e p) ≡ o) × ((p.pos + 1) % 2 ^ 64 ≡ suc p.pos)
  unfolding play_event
  total-play_event e p h here =
      let up : (p.pos + 1) % 2 ^ 64 ≡ suc p.pos = omega (arith, h.short, h.in_song) in
      let one_more : total p ≡ write_all (drop (suc p.pos) p.events) (write e.reg e.val ∷ p.opl) =
        rw (drop-of_get_elem? p.events p.pos e here) refl in
      (rw up (sym one_more ∙ h.towards), up)

  round-GetsOn :
      (start : ℕ) (p : Got)
      → Plays size o p × (left p ≤ start)
      → Returns (GetsOn start (left p)) (round p)
  unfolding round play_event
  round-GetsOn start p (h, near) =
      let (e, here) = get_elem?-of_lt p.events p.pos (omega (arith, h.all_there, h.in_song)) in
      let (towards, up) = total-play_event e p h here in
      let q : Got = play_event e p in
      elim (Bool-cases (e.time == 0 && ltb ((p.pos + 1) % 2 ^ 64) p.size)) [
        | inl b ↦
            let again : Plays size o q = record {
              all_there = h.all_there;
              same_size = h.same_size;
              short = h.short;
              in_song = ground (arith, h.same_size);
              towards = towards;
              going = h.going;
            } in
            rw (here, b, Returns) ((again, omega (arith, up)), omega (arith, up, h.in_song))
        | inr b ↦
            rw (here, b, Returns)
              (end_update-Sent start q h.all_there h.same_size h.short
                (omega (arith, up, h.in_song)) (omega (arith, up, h.in_song)) towards h.going)
      ]

-- `update` on a song that plays: it answers true where the song goes on, at a later event and towards
-- the same calls, and false where all of them have been made, with the song over and at its start. No
-- event outside of the song is read.
pub update-Sent :
    (size : ℕ) (o : Opl) (p : Got)
    → Plays size o p
    → Returns (Sent size o (left size o p)) (update p)
unfolding update
update-Sent size o p h =
    rounds-Returns _ (Sent size o (left size o p)) (left size o) round
      (round-GetsOn size o (left size o p)) (suc p.size) p (h, omega arith)
      (omega (arith, h.same_size))

-- The updates that follow the next one, if each event needs one.
abbrev pub more : ℕ → Got → ℕ
more size p = size - p.pos - 1

Sent-on :
    (size : ℕ) (o : Opl) (p : Got)
    → (x : Bool × Got) → Sent size o (size - p.pos) x
    → PlaysOn update (Plays size o) (Over o) (more size) (more size p) x
Sent-on size o p (true, q) (h, less) = (h, omega (arith, h.in_song, less))
Sent-on size o p (false, q) over = over

pub update-PlaysOn :
    (size : ℕ) (o : Opl) (p : Got)
    → Plays size o p
    → Returns (PlaysOn update (Plays size o) (Over o) (more size) (more size p)) (update p)
update-PlaysOn size o p h =
    Returns-map (Sent size o (size - p.pos)) _ (update p) (Sent-on size o p)
      (update-Sent size o p h)

-- A GOT song with at least one event and fewer than 2^63, all of which are in its array, that is
-- rewound and then updated until update answers false is over after at most as many updates as it
-- has events, and the chip has received the reset, the switch to OPL2 and the writes of all events,
-- each once and in order.
pub play_on-Over :
    (p : Got)
    → length p.events ≡ p.size
    → 0 < p.size
    → p.size < 2 ^ 63
    → Returns
        (Over (write_all p.events (write 1 32 ∷ init ∷ p.opl)))
        (play_on update p.size (rewind p))
unfolding rewind
play_on-Over p there some_event short =
    let o = write_all p.events (write 1 32 ∷ init ∷ p.opl) in
    play_on-Returns update (Plays p.size o) (Over o) (more p.size) (update-PlaysOn p.size o) p.size
      (rewind p)
      (record {
        all_there = there;
        same_size = refl;
        short = short;
        in_song = some_event;
        towards = refl;
        going = refl;
      })
      (omega arith)
