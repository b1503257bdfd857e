-- ===== src/Capture/Raw/Playback.antt =====
-- src/raw.cpp: `update` stays inside of the song and comes to its end.
use adplug.Base.{
  ℕ, suc, ◌+◌, ◌-◌, ◌*◌, ◌%◌, ◌^◌, ◌≤◌, ◌<◌, ◌≡◌, refl, arith, List, Bool, true, false,
}
use adplug.Base.{leb, ◌==◌, ◌||◌, not, Bool-cases, inl, inr, get_elem?-of_lt, if_both}
use adplug.Base.{◌∷◌, length, ok, Returns, Returns-map}
use adplug.Base.Loops.{Round, Progress, rounds-Returns, PlaysOn, play_on}
use adplug.Base.Loops.{play_on-Returns}
use adplug.Base.Opl.{write, setchip}
use adplug.Capture.Raw.{Raw, Item, item_at, end_round, set_speed, command, round, update, rewind}

pub record HasItems (song : List Item) (size pos del : ℕ) : Type 0 where
  pub all_there : length song ≡ size
  pub short : size < 2 ^ 63
  pub in_song : pos ≤ size
  pub waits : del < 2 ^ 8

abbrev pub IsValid : Raw → Type 0
IsValid p = HasItems p.song p.length p.pos p.del

-- The ticks that are left at most: each item can wait for 255.
abbrev pub left : Raw → ℕ
left p = (p.length - p.pos) * 2 ^ 8 + p.del

abbrev rest : Raw → ℕ
rest p = p.length - p.pos

abbrev pub Plays : Raw → Bool × Raw → Type 0
Plays p (more, q) = IsValid q × (q.length ≡ p.length) × (more ≡ true → left q < left p)

-- From the start of a round on: the song that plays, whose wait is over.
abbrev Playing : Raw → Raw → Type 0
Playing p q = IsValid q × (q.length ≡ p.length) × (p.pos ≤ q.pos) × (q.del ≡ 0)

abbrev GetsOn : Raw → ℕ → Round Bool Raw → Type 0
GetsOn p before = Progress (Playing p) (Plays p) rest before

module _ (p : Raw) (before : ℕ) where
  -- At an item that is there, towards the end of a round.
  record AtItem (song : List Item) (size pos del : ℕ) : Type 0 where
    valid : HasItems song size pos del
    same : size ≡ p.length
    not_back : p.pos ≤ pos
    inside : pos < size
    less : size - pos ≤ before

  abbrev IsAt : Raw → Type 0
  IsAt r = AtItem r.song r.length r.pos r.del

  -- The next position.
  past :
      (r : Raw)
      → IsAt r
      → ((r.pos + 1) % 2 ^ 64 ≡ r.pos + 1) × HasItems r.song r.length (r.pos + 1) r.del
  past r a = (
    omega (arith, a.valid.short, a.inside),
    record {
      all_there = a.valid.all_there;
      short = a.valid.short;
      in_song = omega (arith, a.inside);
      waits = a.valid.waits;
    },
  )

  end_round_on :
      (setspeed : Bool) (r : Raw)
      → IsAt r
      → r.del ≡ 0
      → Returns (GetsOn p before) (end_round setspeed r)
  unfolding end_round item_at
  end_round_on setspeed r a still =
      let (item, ei) = get_elem?-of_lt r.song r.pos (omega (arith, a.valid.all_there, a.inside)) in
      let (up, v) = past r a in
      rw (ei, up)
        (if_both (GetsOn p before) (not (item.command == 0) || setspeed) _ _
          ((v, a.same, omega (arith, a.not_back), still), omega (arith, a.less, a.inside))
          (v, a.same, λ e. omega (arith, a.same, a.not_back, a.inside)))

  end_round_wait :
      (item : Item) (r : Raw)
      → IsAt r
      → item_at r ≡ ok item
      → (item.command == 0) ≡ true
      → Returns (GetsOn p before) (end_round false r)
  unfolding end_round
  end_round_wait item r a e stops =
      let (up, v) = past r a in
      rw (e, up, stops, Returns)
        (v, a.same, λ e'. omega (arith, a.same, a.not_back, a.inside, a.valid.waits))

  set_speed-GetsOn : (r : Raw) → IsAt r → r.del ≡ 0 → Returns (GetsOn p before) (set_speed r)
  unfolding set_speed item_at
  set_speed-GetsOn r a still =
      let (up, v) = past r a in
      elim (Bool-cases (leb r.length (r.pos + 1))) [
        | inl e ↦ rw (up, e, Returns) (v, a.same, λ e'. cc)
        | inr e ↦
            let room : r.pos + 1 < r.length = ground arith in
            let (item, ei) = get_elem?-of_lt r.song (r.pos + 1) (omega (arith, v.all_there)) in
            rw (up, e, ei)
              (end_round_on true
                (record r { pos = r.pos + 1; speed = (item.param + item.command * 2 ^ 8) % 2 ^ 16 })
                (record {
                  valid = v;
                  same = a.same;
                  not_back = omega (arith, a.not_back);
                  inside = room;
                  less = omega (arith, a.less);
                })
                still)
      ]

  -- The item may make the song wait, or end it.
  waiting : (r : Raw) → IsAt r → (del : ℕ) → del < 2 ^ 8 → AtItem r.song r.length r.pos del
  waiting r a del h = record {
    valid = record {
      all_there = a.valid.all_there;
      short = a.valid.short;
      in_song = a.valid.in_song;
      waits = h;
    };
    same = a.same;
    not_back = a.not_back;
    inside = a.inside;
    less = a.less;
  }

  rewound : (r : Raw) → IsAt r → Plays p (false, record (rewind r) { songend = true })
  unfolding rewind
  rewound r a = (
    record {
      all_there = a.valid.all_there;
      short = a.valid.short;
      in_song = omega arith;
      waits = omega arith;
    },
    a.same,
    λ e. cc,
  )

  command-GetsOn :
      (item : Item) (r : Raw)
      → IsAt r
      → r.del ≡ 0
      → item_at r ≡ ok item
      → Returns (GetsOn p before) (command item r)
  unfolding command item_at
  command-GetsOn item r a still e = elim (Bool-cases (item.command == 0)) [
    | inl stops ↦ rw stops (
        end_round_wait item (record r { del = (item.param + 2 ^ 8 - 1) % 2 ^ 8 })
          (waiting r a _ (omega arith)) e stops)
    | inr goes ↦ rw goes (
        if_both (Returns (GetsOn p before)) (item.command == 2) _ _
          (if_both (Returns (GetsOn p before)) (item.param == 0) _ _ (set_speed-GetsOn r a still)
            (end_round_on false (record r { opl = setchip (item.param - 1) ∷ r.opl }) a still))
          (if_both (Returns (GetsOn p before)) (item.command == 0xff) _ _
            (if_both (Returns (GetsOn p before)) (item.param == 0xff) _ _ (rewound r a)
              (end_round_on false r a still))
            (end_round_on false (record r { opl = write item.command item.param ∷ r.opl }) a
              still)))
  ]

round-GetsOn : (p q : Raw) → Playing p q → Returns (GetsOn p (rest q)) (round q)
unfolding round item_at
round-GetsOn p q (v, same, on, still) = elim (Bool-cases (leb q.length q.pos)) [
  | inl e ↦ rw (e, Returns) (v, same, λ e'. cc)
  | inr e ↦
      let room : q.pos < q.length = ground arith in
      let (item, ei) = get_elem?-of_lt q.song q.pos (omega (arith, v.all_there)) in
      rw (e, ei)
        (command-GetsOn p (rest q) item q
          (record { valid = v; same = same; not_back = on; inside = room; less = omega arith })
          still (rw ei refl))
]

-- On a valid song `update` reads inside of it only and ends, and keeps the song valid. When it answers
-- true there are fewer ticks left than before.
pub update-Plays : (p : Raw) → IsValid p → Returns (Plays p) (update p)
unfolding update
update-Plays p v = elim (Bool-cases (leb p.length p.pos)) [
  | inl e ↦ rw (e, Returns) (v, refl, λ e'. cc)
  | inr e ↦ elim (Bool-cases (p.del == 0)) [
    | inl still ↦
        rw (e, still)
          (rounds-Returns (Playing p) (Plays p) rest round (round-GetsOn p) (suc p.length) p
            (v, refl, omega arith, ground arith) (omega arith))
    | inr waits ↦
        let some_del : 0 < p.del = ground arith in
        rw (e, waits, Returns) (ticked some_del, refl, λ e'. omega arith)
  ]
]
  where
    ticked : 0 < p.del → HasItems p.song p.length p.pos (p.del - 1)
    ticked h = record {
      all_there = v.all_there;
      short = v.short;
      in_song = v.in_song;
      waits = omega (arith, v.waits);
    }

pub rewind-IsValid : (p : Raw) → IsValid p → IsValid (rewind p)
unfolding rewind
rewind-IsValid p v = record {
  all_there = v.all_there;
  short = v.short;
  in_song = omega arith;
  waits = omega arith;
}

Plays-on : (q : Raw) (x : Bool × Raw) → Plays q x → PlaysOn update IsValid IsValid left (left q) x
Plays-on q (true, r) (v, same, less) = (v, less refl)
Plays-on q (false, r) (v, same, less) = v

-- A valid song that is rewound and then updated until `update` answers false comes to that without a
-- fault, after no more updates than 256 for each item, and one.
pub play_on-rewind :
    (p : Raw) → IsValid p → Returns IsValid (play_on update (suc (p.length * 2 ^ 8)) (rewind p))
unfolding rewind
play_on-rewind p v =
    play_on-Returns update IsValid IsValid left
      (λ q w. Returns-map (Plays q) _ (update q) (Plays-on q) (update-Plays q w))
      (suc (p.length * 2 ^ 8)) (rewind p) (rewind-IsValid p v) (omega arith)
