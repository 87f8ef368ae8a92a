-- ===== src/Tray/Icon.antt =====
-- tray.go: `trayIcon`. The PNG encoder is a parameter. Lengths are measured in half pixels, squares in
-- quarters: every number of the source is one of these, and is exact as a `float64`.
use schroedinger_sync.Base.{
  ℕ, zero, suc, ◌+◌, ◌-◌, ◌*◌, ◌<◌, Bool, true, ◌&&◌, Option, none, some, List, [], ◌∷◌, ◌++◌, ◌≡◌,
  ◌≢◌, refl, arith, if◌then◌else◌, ltb, leb, Bytes,
}

pub record Rgba : Type 0 where
  pub r : ℕ
  pub g : ℕ
  pub b : ℕ
  pub a : ℕ

abbrev pub white : Rgba
white = record { r = 255; g = 255; b = 255; a = 255 }

abbrev pub size : ℕ
size = 22

-- Twice the distance of a pixel's centre from the middle of the image, along one axis.
unfoldable pub away : ℕ → ℕ
away x = if ltb (2 * x + 1) size then size - (2 * x + 1) else 2 * x + 1 - size

-- Four times the square of the distance.
unfoldable pub distance : ℕ → ℕ → ℕ
unfolding away
distance x y = away x * away x + away y * away y

-- Four times the squares of the radii of the disc and of the ring, `r - 2` and `r`.
abbrev pub disc : ℕ
disc = (size - 6) * (size - 6)

abbrev pub ring : ℕ
ring = (size - 2) * (size - 2)

-- What is set at a pixel; the image starts out transparent.
unfoldable pub pixel : Rgba → ℕ → ℕ → Option Rgba
unfolding distance
pixel c x y =
    if leb (distance x y) disc then some c else if leb (distance x y) ring then some white else none

row : Rgba → ℕ → ℕ → List (Option Rgba)
row c y zero = []
row c y (suc x) = row c y x ++ (pixel c x y ∷ [])

rows : Rgba → ℕ → List (List (Option Rgba))
rows c zero = []
rows c (suc y) = rows c y ++ (row c y size ∷ [])

-- `trayIcon`
unfoldable pub tray_icon : (List (List (Option Rgba)) → Bytes) → Rgba → Bytes
unfolding rows row
tray_icon encode c = encode (rows c size)

-- Is the pixel in the ring or in the disc?
painted : ℕ → ℕ → Bool
painted x y = leb (distance x y) ring

inside : ℕ → ℕ → Bool
inside x y = leb (distance x y) disc

every : ℕ → (ℕ → Bool) → Bool
every zero p = true
every (suc n) p = p n && every n p

every_sound : (n : ℕ) (p : ℕ → Bool) (x : ℕ) → every n p ≡ true → x < n → p x ≡ true
unfolding every
every_sound zero p x h lt = absurd (omega arith)
every_sound (suc n) p x h lt = ground (arith, every_sound n p x)

-- A pixel inside is away from the border, and the pixels around it are painted.
surrounded : ℕ → ℕ → Bool
surrounded x y =
    if inside x y then every 3 (λ i. every 3 (λ j. painted (x + i - 1) (y + j - 1))) else true

all_surrounded : every size (λ y. every size (λ x. surrounded x y)) ≡ true
unfolding every surrounded inside painted distance away
all_surrounded = refl

-- The coloured disc touches no transparent pixel, not even at a corner: whatever the taskbar's colour,
-- there is white between them.
pub pixel-surrounded :
    (c : Rgba) (x y i j : ℕ)
    → x < size
    → y < size
    → i < 3
    → j < 3
    → leb (distance x y) disc ≡ true
    → pixel c (x + i - 1) (y + j - 1) ≢ none
unfolding pixel surrounded inside painted
pixel-surrounded c x y i j hx hy hi hj h =
    let line = every_sound size (λ b. every size (λ a. surrounded a b)) y all_surrounded hy in
    let here : surrounded x y ≡ true = every_sound size (λ a. surrounded a y) x line hx in
    let around : every 3 (λ a. every 3 (λ b. painted (x + a - 1) (y + b - 1))) ≡ true =
      rw (h, surrounded) at here in
    let column = every_sound 3 (λ a. every 3 (λ b. painted (x + a - 1) (y + b - 1))) i around hi in
    let cell : painted (x + i - 1) (y + j - 1) ≡ true =
      every_sound 3 (λ b. painted (x + i - 1) (y + b - 1)) j column hj in
    ground (arith, cell)
