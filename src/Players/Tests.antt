-- ===== src/Players/Tests.antt =====
-- A player of two extensions, and the theorems about its description.
use adplug.Base.{ℕ, List, [], ◌∷◌, refl, arith, some}
use adplug.Players.{PlayerDesc}
use adplug.Players.Extensions.{IsText, texts, encode, Lists}

abbrev imf : List ℕ
imf = b'.' ∷ b'i' ∷ b'm' ∷ b'f' ∷ []

abbrev wlf : List ℕ
wlf = b'.' ∷ b'w' ∷ b'l' ∷ b'f' ∷ []

imf-IsText : IsText imf
imf-IsText = (
  λ e. omega (arith, e),
  (λ e. omega (arith, e), (λ e. omega (arith, e), (λ e. omega (arith, e), tt))),
)

wlf-IsText : IsText wlf
wlf-IsText = (
  λ e. omega (arith, e),
  (λ e. omega (arith, e), (λ e. omega (arith, e), (λ e. omega (arith, e), tt))),
)

abbrev both : List (List ℕ)
both = imf ∷ wlf ∷ []

abbrev desc : PlayerDesc ℕ
desc = record { factory = some 1; filetype = []; extensions = some (encode both); extlength = 11 }

desc-Lists : Lists desc both
desc-Lists = unfold texts in ((imf-IsText, (wlf-IsText, tt)), refl, refl)
