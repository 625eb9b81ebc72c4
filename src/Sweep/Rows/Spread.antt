-- ===== src/Sweep/Rows/Spread.antt =====
-- Where the branch of `rx_callback` (src/lib/hackrf/hackrf_sweep.c) for the inverse FFT writes.
use hackrf.Prelude.{
  ℕ, zero, suc, ◌+◌, ◌-◌, ◌*◌, ◌/◌, ◌%◌, ◌^◌, ◌≤◌, ◌<◌, ◌≡◌, ◌≢◌, sym, ap, ◌∙◌, ◌⊎◌, inl, inr,
  Bool-cases, ltb, ltb→lt, List, [], ◌∷◌, ◌++◌, arith,
}
use native.Mathlib.Nat.{
  mod-lt, mod-eq-sub-mod, div-add-mod, mul-add, mul_assoc, mul-add-mod_self_left, mod-eq_of_lt,
  mul-le-mul_left,
}
use hackrf.Sweep.Rows.{copies, first_place, second_place, spread}

-- Every place is in the first `bins`, every bin in the first `n`, and no place is written twice.
abbrev pub Inside : ℕ → ℕ → List (ℕ × ℕ) → Type 0
Inside n bins [] = Unit {0}
Inside n bins (c ∷ cs) = (c.0 < bins) × (c.1 < n) × Inside n bins cs

abbrev pub NotAt : ℕ → List (ℕ × ℕ) → Type 0
NotAt place [] = Unit {0}
NotAt place (c ∷ cs) = (place ≢ c.0) × NotAt place cs

abbrev pub Once : List (ℕ × ℕ) → Type 0
Once [] = Unit {0}
Once (c ∷ cs) = NotAt c.0 cs × Once cs

Inside-append :
    (n bins : ℕ) (xs ys : List (ℕ × ℕ))
    → Inside n bins xs
    → Inside n bins ys
    → Inside n bins (xs ++ ys)
Inside-append n bins [] ys hx hy = hy
Inside-append n bins (x ∷ xs) ys hx hy = (hx.0, hx.1, Inside-append n bins xs ys hx.2 hy)

copies-Inside :
    (n bins count place bin : ℕ)
    → place + count ≤ bins
    → bin + count ≤ n
    → Inside n bins (copies count place bin)
copies-Inside n bins zero place bin h k = tt
copies-Inside n bins (suc count) place bin h k = (
  omega arith,
  omega arith,
  copies-Inside n bins count (place + 1) (bin + 1) (omega arith) (omega arith),
)

-- A place before or behind a run of copies is not written by it.
pub copies-NotAt :
    (count place bin q : ℕ) → (q < place) ⊎ (place + count ≤ q) → NotAt q (copies count place bin)
copies-NotAt zero place bin q h = tt
copies-NotAt (suc count) place bin q h =
    (ground (arith, h), copies-NotAt count (place + 1) (bin + 1) q (ground (arith, h)))

copies-Once : (count place bin : ℕ) → Once (copies count place bin)
copies-Once zero place bin = tt
copies-Once (suc count) place bin = (
  copies-NotAt count (place + 1) (bin + 1) place (inl (omega arith)),
  copies-Once count (place + 1) (bin + 1),
)

append-NotAt : (q : ℕ) (xs ys : List (ℕ × ℕ)) → NotAt q xs → NotAt q ys → NotAt q (xs ++ ys)
append-NotAt q [] ys hx hy = hy
append-NotAt q (x ∷ xs) ys hx hy = (hx.0, append-NotAt q xs ys hx.1 hy)

-- Two runs that lie apart.
copies-append-Once :
    (count place bin : ℕ) (m a b : ℕ)
    → (place + count ≤ a) ⊎ (a + m ≤ place)
    → Once (copies count place bin ++ copies m a b)
copies-append-Once zero place bin m a b h = copies-Once m a b
copies-append-Once (suc count) place bin m a b h = (
  append-NotAt place (copies count (place + 1) (bin + 1)) (copies m a b)
      (copies-NotAt count (place + 1) (bin + 1) place (inl (omega arith)))
      (copies-NotAt m a b place (ground (arith, h))),
  copies-append-Once count (place + 1) (bin + 1) m a b (ground (arith, h)),
)

pub scale_lt : (w a b : ℕ) → a < b → w * a + w ≤ w * b
scale_lt w a b h =
    omega (arith, mul-le-mul_left {m = a + 1} {n = b} w (omega (arith, h)), mul-add w a 1)

mod_scale : (w a b : ℕ) → 0 < w → 0 < b → w * a % (w * b) ≡ w * (a % b)
mod_scale w a b pos_w pos_b =
    let below = scale_lt w (a % b) b (mod-lt a pos_b) in
    ap (λ (t : ℕ). t % (w * b))
      (ap (λ (t : ℕ). w * t) (sym (div-add-mod a b))
        ∙ (mul-add w (b * (a / b)) (a % b)
            ∙ ap (λ (t : ℕ). t + w * (a % b)) (sym (mul_assoc w b (a / b)))))
    ∙ (mul-add-mod_self_left (w * b) (a / b) (w * (a % b)) ∙ mod-eq_of_lt (omega (arith, below)))

bins_scale : (w steps : ℕ) → 4 * w * steps ≡ w * (4 * steps)
bins_scale w steps = omega arith

start_scale : (w steps k : ℕ) → k * w + 4 * w * steps / 2 ≡ w * (k + 2 * steps)
start_scale w steps k = omega arith

two_on : (r b : ℕ) → 4 ≤ b → r < b → (r < (r + 2) % b) ⊎ ((r + 2) % b < r)
two_on r b four below = elim (Bool-cases (ltb (r + 2) b)) [
  | inl h ↦ rw (mod-eq_of_lt (ltb→lt (r + 2) b h)) (inl (omega arith))
  | inr h ↦
      let over : b ≤ r + 2 = ground (arith, h) in
      let wraps : (r + 2) % b ≡ r + 2 - b = mod-eq-sub-mod over ∙ mod-eq_of_lt (omega arith) in
      rw wraps (inr (omega (arith, over)))
]

pub first_place-eq :
    (w steps k : ℕ)
    → 0 < w
    → 1 ≤ steps
    → 4 * w * steps < 2 ^ 31
    → k * w < 2 ^ 31
    → first_place (4 * w * steps) (k * w) ≡ w * ((k + 2 * steps) % (4 * steps))
unfolding first_place
first_place-eq w steps k pos_w one few low =
    let sum = start_scale w steps k in
    let fits : (k * w + 4 * w * steps / 2) % 2 ^ 32 ≡ w * (k + 2 * steps) =
      mod-eq_of_lt (omega (arith, few, low)) ∙ sum in
    ap (λ (t : ℕ). t % (4 * w * steps)) fits
    ∙ (ap (λ (t : ℕ). w * (k + 2 * steps) % t) (bins_scale w steps)
        ∙ mod_scale w (k + 2 * steps) (4 * steps) pos_w (omega arith))

pub second_place-eq :
    (w steps k r : ℕ)
    → 0 < w
    → 1 ≤ steps
    → 4 * w * steps < 2 ^ 31
    → first_place (4 * w * steps) (k * w) ≡ w * r
    → r < 4 * steps
    → second_place (4 * w) (4 * w * steps) (k * w) ≡ w * ((r + 2) % (4 * steps))
unfolding second_place
second_place-eq w steps k r pos_w one few e low =
    let room = scale_lt w r (4 * steps) low in
    let fits : (w * r + 4 * w / 2) % 2 ^ 32 ≡ w * (r + 2) =
      mod-eq_of_lt (omega (arith, few, room)) ∙ omega arith in
    ap (λ (t : ℕ). (t + 4 * w / 2) % 2 ^ 32 % (4 * w * steps)) e
    ∙ (ap (λ (t : ℕ). t % (4 * w * steps)) fits
        ∙ (ap (λ (t : ℕ). w * (r + 2) % t) (bins_scale w steps)
            ∙ mod_scale w (r + 2) (4 * steps) pos_w (omega arith)))

-- Where the two loops begin: each leaves room for a quarter of a transform, and they lie apart.
places_apart :
    (w steps k : ℕ)
    → 0 < w
    → 1 ≤ steps
    → 4 * w * steps < 2 ^ 31
    → k * w < 2 ^ 31
    → let bins = 4 * w * steps in
      let f = first_place bins (k * w) in
      let g = second_place (4 * w) bins (k * w) in
      (f + w ≤ bins) × (g + w ≤ bins) × ((f + w ≤ g) ⊎ (g + w ≤ f))
places_apart w steps k pos_w one few low =
    let b = 4 * steps in
    let r = (k + 2 * steps) % b in
    let q = (r + 2) % b in
    let r_below : r < b = mod-lt (k + 2 * steps) (omega arith) in
    let q_below : q < b = mod-lt (r + 2) (omega arith) in
    let f_eq = first_place-eq w steps k pos_w one few low in
    let g_eq = second_place-eq w steps k r pos_w one few f_eq r_below in
    let split : (r < q) ⊎ (q < r) = two_on r b (omega arith) r_below in
    rw (f_eq, g_eq)
      (
        omega (arith, scale_lt w r b r_below),
        omega (arith, scale_lt w q b q_below),
        elim split [ inl h ↦ inl (scale_lt w r q h) | inr h ↦ inr (scale_lt w q r h) ],
      )

-- Where a transform has `4 * w` bins with an odd `w`, the quotient is `k * w`, a whole number of
-- quarters of a transform, and everything fits 31 bits: the branch writes only inside the elements
-- that are allocated, one transform for each step, reads only bins of the transform, and writes no
-- element twice.
pub spread-Inside :
    (w steps k : ℕ)
    → 0 < w
    → w % 2 ≡ 1
    → 1 ≤ steps
    → 4 * w * steps < 2 ^ 31
    → k * w < 2 ^ 31
    → let bins = 4 * w * steps in
      let copied = spread (4 * w) bins (k * w) in Inside (4 * w) bins copied × Once copied
spread-Inside w steps k pos_w odd one few low =
    let (room, room', apart) = places_apart w steps k pos_w one few low in
    let n = 4 * w in
    let f = first_place (n * steps) (k * w) in
    let g = second_place n (n * steps) (k * w) in
    (
      Inside-append n (n * steps) (copies (n / 4) f (1 + n * 5 / 8)) (copies (n / 4) g (1 + n / 8))
          (copies-Inside n (n * steps) (n / 4) f (1 + n * 5 / 8) (omega (arith, room))
            (omega arith))
          (copies-Inside n (n * steps) (n / 4) g (1 + n / 8) (omega (arith, room')) (omega arith)),
      copies-append-Once (n / 4) f (1 + n * 5 / 8) (n / 4) g (1 + n / 8) (ground (arith, apart)),
    )
