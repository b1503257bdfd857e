-- ===== src/AdPlug/Tests.antt =====
-- Two players, of which the second takes every file, and the order in which they are tried.
use adplug.Base.{ℕ, List, [], ◌∷◌, ◌++◌, refl, arith, some, ◌==◌, Returns}
use adplug.Base.{◌+◌}
use adplug.Players.{PlayerDesc}
use adplug.Players.Extensions.{IsText, encode, texts}
use adplug.AdPlug.{Engine, factory}
use adplug.AdPlug.Trials.{Entry, AreEntries, Tries, all_hits, makes, factory-Tries}

-- The world counts the calls of `load`.
abbrev counting : Engine ℕ
counting = record {
  Player = ℕ;
  World = ℕ;
  create = λ f w. (some f, w);
  load = λ name p w. (p == 2, p, w + 1);
  delete = λ p w. w;
}

abbrev a : List ℕ
a = b'a' ∷ []

abbrev b : List ℕ
b = b'b' ∷ []

a-IsText : IsText a
a-IsText = (λ e. omega (arith, e), tt)

b-IsText : IsText b
b-IsText = (λ e. omega (arith, e), tt)

abbrev entries : List (Entry ℕ)
entries = record { make = 1; texts = a ∷ b ∷ [] } ∷ record { make = 2; texts = a ∷ [] } ∷ []

abbrev players : List (PlayerDesc ℕ)
players =
    record {
      factory = some 1;
      filetype = [];
      extensions = some (encode (a ∷ b ∷ []));
      extlength = 5;
    }
    ∷ record { factory = some 2; filetype = []; extensions = some (encode (a ∷ [])); extlength = 3 }
    ∷ []

players-AreEntries : AreEntries players entries
players-AreEntries =
    unfold texts in
    ((refl, ((a-IsText, (b-IsText, tt)), refl, refl)), ((refl, ((a-IsText, tt), refl, refl)), tt))

factory-Tries_example :
    Returns
      (Tries counting (b'x' ∷ b'b' ∷ []) (all_hits (b'x' ∷ b'b' ∷ []) entries ++ makes entries) 0)
      (factory counting (b'x' ∷ b'b' ∷ []) players 0)
factory-Tries_example =
    factory-Tries counting (b'x' ∷ b'b' ∷ []) players entries 0 players-AreEntries
