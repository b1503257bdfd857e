-- ===== src/AdPlug/Trials.antt =====
-- src/adplug.cpp: the order in which the factory tries the players.
use adplug.Base.{
  ℕ, zero, suc, ◌+◌, ◌≤◌, ◌<◌, ◌≡◌, refl, sym, ap, ◌∙◌, arith, List, [], ◌∷◌, ◌++◌, length, Option,
}
use adplug.Base.{none, some, Bool, true, false, if◌then◌else◌, Outcome, ok, Returns}
use adplug.Base.{drop, inl, inr, order_cases}
use adplug.Base.{get_elem?-of_lt, get_elem?-of_le, drop-of_get_elem?, drop-of_le}
use adplug.Provider.{extension}
use adplug.Players.{PlayerDesc}
use adplug.Players.Extensions.{Lists, get_extension-encode, length-lt_extlength}
use adplug.AdPlug.{
  Engine, judge, load_made, or_else, attempt, call, try_hit, direct_hits, try_direct, try_each,
  factory,
}

-- A player of the list: its factory function and the texts of its extensions.
pub record Entry (F : Type 0) : Type 0 where
  pub make : F
  pub texts : List (List ℕ)

module _ {F : Type 0} where
  abbrev pub IsEntry : PlayerDesc F → Entry F → Type 0
  IsEntry pd e = (pd.factory ≡ some e.make) × Lists pd e.texts

  abbrev pub AreEntries : List (PlayerDesc F) → List (Entry F) → Type 0
  AreEntries [] [] = Unit {0}
  AreEntries [] (e ∷ es) = ⊥
  AreEntries (pd ∷ pl) [] = ⊥
  AreEntries (pd ∷ pl) (e ∷ es) = IsEntry pd e × AreEntries pl es

  -- A player once for each of its extensions that the file name ends in.
  abbrev pub hits : List ℕ → F → List (List ℕ) → List F
  hits fn f [] = []
  hits fn f (t ∷ ts) = if extension fn t then f ∷ hits fn f ts else hits fn f ts

  abbrev pub all_hits : List ℕ → List (Entry F) → List F
  all_hits fn [] = []
  all_hits fn (e ∷ es) = hits fn e.make e.texts ++ all_hits fn es

  abbrev pub makes : List (Entry F) → List F
  makes [] = []
  makes (e ∷ es) = e.make ∷ makes es

-- `or_else` for what cannot fault.
abbrev pub next : {P W : Type 0} → Option P × W → (W → Option P × W) → Option P × W
next (some p, w) g = (some p, w)
next (none, w) g = g w

or_else-ok :
    {P W : Type 0} (r : Option P × W) (k : W → Outcome (Option P × W)) (g : W → Option P × W)
    → ((w : W) → k w ≡ ok (g w))
    → or_else r k ≡ ok (next r g)
or_else-ok (some p, w) k g h = refl
or_else-ok (none, w) k g h = h w

next_assoc :
    {P W : Type 0} (r : Option P × W) (g h : W → Option P × W)
    → next (next r g) h ≡ next r (λ w. next (g w) h)
next_assoc (some p, w) g h = refl
next_assoc (none, w) g h = refl

module _ {F : Type 0} (engine : Engine F) (fn : List ℕ) where
  -- The factories one after the other, up to the first whose player takes the file.
  abbrev pub first_loaded : List F → engine.World → Option engine.Player × engine.World
  first_loaded [] w = (none, w)
  first_loaded (f ∷ fs) w = next (attempt engine fn f w) (λ w. first_loaded fs w)

  first_loaded-append :
      (fs gs : List F) (w : engine.World)
      → first_loaded (fs ++ gs) w ≡ next (first_loaded fs w) (λ w. first_loaded gs w)
  first_loaded-append [] gs w = refl
  first_loaded-append (f ∷ fs) gs w =
      ap (next (attempt engine fn f w)) (λ i w. first_loaded-append fs gs w i)
      ∙ sym (next_assoc (attempt engine fn f w) (first_loaded fs) (first_loaded gs))

  call-attempt :
      (pd : PlayerDesc F) (f : F) (w : engine.World)
      → pd.factory ≡ some f
      → call engine fn pd w ≡ ok (attempt engine fn f w)
  unfolding call
  call-attempt pd f w e = simp e refl

  try_hit-next :
      (b : Bool) (pd : PlayerDesc F) (f : F) (fs : List F) (w : engine.World)
      (k : engine.World → Outcome (Option engine.Player × engine.World))
      → pd.factory ≡ some f
      → ((w : engine.World) → k w ≡ ok (first_loaded fs w))
      → try_hit engine fn b pd w k ≡ ok (first_loaded (if b then f ∷ fs else fs) w)
  unfolding try_hit
  try_hit-next true pd f fs w k e h =
      rw (call-attempt pd f w e) (or_else-ok (attempt engine fn f w) k (first_loaded fs) h)
  try_hit-next false pd f fs w k e h = h w

  direct_hits-hits :
      (fuel j : ℕ) (pd : PlayerDesc F) (e : Entry F) (w : engine.World)
      → IsEntry pd e
      → j ≤ length e.texts
      → length e.texts < j + fuel
      → direct_hits engine fn fuel j pd w ≡ ok (first_loaded (hits fn e.make (drop j e.texts)) w)
  unfolding direct_hits
  direct_hits-hits zero j pd e w h there enough = absurd (omega arith)
  direct_hits-hits (suc fuel) j pd e w h there enough = elim (order_cases j (length e.texts)) [
    | inl lt ↦
        let (t, at) = get_elem?-of_lt e.texts j lt in
        let up : j + 1 ≡ suc j = omega arith in
        let rest = first_loaded (hits fn e.make (drop (suc j) e.texts)) in
        let more : (w : engine.World) → direct_hits engine fn fuel (j + 1) pd w ≡ ok (rest w) =
          λ w. rw up (direct_hits-hits fuel (suc j) pd e w h lt (omega arith)) in
        rw (get_extension-encode pd e.texts j h.1.0 h.1.1, at, drop-of_get_elem? e.texts j t at)
          (try_hit-next (extension fn t) pd e.make _ w _ h.0 more)
    | inr ge ↦
        let end : length e.texts ≤ j = ground arith in
        rw
          (
            get_extension-encode pd e.texts j h.1.0 h.1.1,
            get_elem?-of_le e.texts j end,
            drop-of_le e.texts j end,
          )
          refl
  ]

  try_direct-all_hits :
      (pl : List (PlayerDesc F)) (es : List (Entry F)) (w : engine.World)
      → AreEntries pl es
      → try_direct engine fn pl w ≡ ok (first_loaded (all_hits fn es) w)
  unfolding try_direct
  try_direct-all_hits [] [] w h = refl
  try_direct-all_hits [] (e ∷ es) w h = absurd h
  try_direct-all_hits (pd ∷ pl) [] w h = absurd h
  try_direct-all_hits (pd ∷ pl) (e ∷ es) w (h, hs) =
      let tried : direct_hits engine fn pd.extlength 0 pd w
          ≡ ok (first_loaded (hits fn e.make e.texts) w) =
        direct_hits-hits pd.extlength 0 pd e w h (omega arith)
          (omega (arith, length-lt_extlength pd e.texts h.1)) in
      rw (tried, first_loaded-append (hits fn e.make e.texts) (all_hits fn es) w)
        (or_else-ok (first_loaded (hits fn e.make e.texts) w) _ _
          (λ w. try_direct-all_hits pl es w hs))

  try_each-makes :
      (pl : List (PlayerDesc F)) (es : List (Entry F)) (w : engine.World)
      → AreEntries pl es
      → try_each engine fn pl w ≡ ok (first_loaded (makes es) w)
  unfolding try_each
  try_each-makes [] [] w h = refl
  try_each-makes [] (e ∷ es) w h = absurd h
  try_each-makes (pd ∷ pl) [] w h = absurd h
  try_each-makes (pd ∷ pl) (e ∷ es) w (h, hs) =
      rw (call-attempt pd e.make w h.0)
        (or_else-ok (attempt engine fn e.make w) _ _ (λ w. try_each-makes pl es w hs))

  factory-first_loaded :
      (pl : List (PlayerDesc F)) (es : List (Entry F)) (w : engine.World)
      → AreEntries pl es
      → factory engine fn pl w ≡ ok (first_loaded (all_hits fn es ++ makes es) w)
  unfolding factory
  factory-first_loaded pl es w h =
      rw (try_direct-all_hits pl es w h, first_loaded-append (all_hits fn es) (makes es) w)
        (or_else-ok (first_loaded (all_hits fn es) w) _ _ (λ w. try_each-makes pl es w h))

module _ {F : Type 0} (engine : Engine F) (fn : List ℕ) where
  -- How the factories `fs` fare one after the other, from the world `w` on, and what that comes to: a
  -- factory may give no player object, an object may refuse the file and is deleted, and the first
  -- that takes the file is the result, with which the trials are over.
  pub data Tries : List F → engine.World → Option engine.Player × engine.World → Type 0 where
    nobody : {w : engine.World} → Tries [] w (none, w)
    no_object :
        {f : F} {fs : List F} {w w1 : engine.World} {r : Option engine.Player × engine.World}
        → engine.create f w ≡ (none, w1)
        → Tries fs w1 r
        → Tries (f ∷ fs) w r
    refuses :
        {f : F} {fs : List F} {w w1 w2 : engine.World} {p p' : engine.Player}
        {r : Option engine.Player × engine.World}
        → engine.create f w ≡ (some p, w1)
        → engine.load fn p w1 ≡ (false, p', w2)
        → Tries fs (engine.delete p' w2) r
        → Tries (f ∷ fs) w r
    takes :
        {f : F} {fs : List F} {w w1 w2 : engine.World} {p p' : engine.Player}
        → engine.create f w ≡ (some p, w1)
        → engine.load fn p w1 ≡ (true, p', w2)
        → Tries (f ∷ fs) w (some p', w2)

  judged-Tries :
      (f : F) (fs : List F) (w w1 : engine.World) (p : engine.Player)
      (x : Bool × engine.Player × engine.World)
      → engine.create f w ≡ (some p, w1)
      → engine.load fn p w1 ≡ x
      → ((v : engine.World) → Tries fs v (first_loaded engine fn fs v))
      → Tries (f ∷ fs) w (next (judge engine fn x) (λ v. first_loaded engine fn fs v))
  unfolding judge
  judged-Tries f fs w w1 p (true, p', w2) made loaded more = takes made loaded
  judged-Tries f fs w w1 p (false, p', w2) made loaded more =
      refuses made loaded (more (engine.delete p' w2))

  made-Tries :
      (f : F) (fs : List F) (w : engine.World) (m : Option engine.Player × engine.World)
      → engine.create f w ≡ m
      → ((v : engine.World) → Tries fs v (first_loaded engine fn fs v))
      → Tries (f ∷ fs) w (next (load_made engine fn m) (λ v. first_loaded engine fn fs v))
  unfolding load_made
  made-Tries f fs w (none, w1) made more = no_object made (more w1)
  made-Tries f fs w (some p, w1) made more =
      judged-Tries f fs w w1 p (engine.load fn p w1) made refl more

  first_loaded-Tries : (fs : List F) (w : engine.World) → Tries fs w (first_loaded engine fn fs w)
  unfolding attempt
  first_loaded-Tries [] w = nobody
  first_loaded-Tries (f ∷ fs) w =
      made-Tries f fs w (engine.create f w) refl (λ v. first_loaded-Tries fs v)

  -- On players with well-formed lists of extensions and a factory each, factory ends without a
  -- fault, having tried first each player once for every extension of it that the file name ends
  -- in, then every player once, each time in the order of the list. It returns the first player
  -- object whose load takes the file, tries nothing after that, and has deleted every object that
  -- refused the file; where none takes it, it returns null.
  pub factory-Tries :
      (pl : List (PlayerDesc F)) (es : List (Entry F)) (w : engine.World)
      → AreEntries pl es
      → Returns (Tries (all_hits fn es ++ makes es) w) (factory engine fn pl w)
  factory-Tries pl es w h =
      rw (factory-first_loaded engine fn pl es w h)
        (first_loaded-Tries (all_hits fn es ++ makes es) w)
