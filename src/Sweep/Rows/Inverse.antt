-- ===== src/Sweep/Rows/Inverse.antt =====
-- What a whole sweep leaves in the input of the inverse FFT (src/lib/hackrf/hackrf_sweep.c, `rx_callback`).
use hackrf.Prelude.{
  ℕ, zero, suc, ◌+◌, ◌-◌, ◌*◌, ◌/◌, ◌%◌, ◌^◌, ◌≤◌, ◌<◌, ◌≡◌, ◌≢◌, refl, sym, ap, ◌∙◌, ◌⊎◌, inl, inr,
  Bool-cases, ltb, ltb→lt, ◌==◌, if◌then◌else◌, List, [], ◌∷◌, ◌++◌, arith,
}
use native.Mathlib.Nat.{mod-eq-sub-mod, mod-eq_of_lt}
use hackrf.Filter.Bounds.{All, IsEntry}
use hackrf.Sweep.Rows.{copies, first_place, second_place, store, spread_block}
use hackrf.Sweep.Rows.Spread.{NotAt, copies-NotAt, scale_lt, first_place-eq, second_place-eq}

module _ {ℓ} {V : Type ℓ} (out : ℕ → V) where
  store-NotAt : (cs : List (ℕ × ℕ)) (a : ℕ → V) (e : ℕ) → NotAt e cs → store out cs a e ≡ a e
  unfolding store
  store-NotAt [] a e h = refl
  store-NotAt (c ∷ cs) a e h =
      store-NotAt cs (λ i. if i == c.0 then out c.1 else a i) e h.1 ∙ ground (arith, h.0)

  store-append :
      (cs ds : List (ℕ × ℕ)) (a : ℕ → V) → store out (cs ++ ds) a ≡ store out ds (store out cs a)
  unfolding store
  store-append [] ds a = refl
  store-append (c ∷ cs) ds a = store-append cs ds (λ i. if i == c.0 then out c.1 else a i)

  store-copies :
      (count place bin o : ℕ) (a : ℕ → V)
      → o < count
      → store out (copies count place bin) a (place + o) ≡ out (bin + o)
  unfolding store
  store-copies zero place bin o a h = absurd (omega arith)
  store-copies (suc count) place bin zero a h =
      store-NotAt (copies count (place + 1) (bin + 1)) (λ i. if i == place then out bin else a i)
        (place + 0) (copies-NotAt count (place + 1) (bin + 1) (place + 0) (inl (omega arith)))
      ∙ ground arith
  store-copies (suc count) place bin (suc o) a h =
      let rest =
        store-copies count (place + 1) (bin + 1) o (λ i. if i == place then out bin else a i)
          (omega arith) in
      let e : place + suc o ≡ place + 1 + o = omega arith in
      let f : bin + suc o ≡ bin + 1 + o = omega arith in
      ap (store out (copies count (place + 1) (bin + 1)) (λ i. if i == place then out bin else a i))
        e
      ∙ (rest ∙ ap out (sym f))

-- Where the `m`th of all quarters of a transform stands: half of them later, round the end.
abbrev half : ℕ → ℕ → ℕ
half steps m = (m + 2 * steps) % (4 * steps)

wrap : (x b : ℕ) → x < 2 * b → x % b ≡ (if ltb x b then x else x - b)
wrap x b h = elim (Bool-cases (ltb x b)) [
  | inl l ↦ rw l (mod-eq_of_lt (ltb→lt x b l))
  | inr l ↦
      let over : b ≤ x = ground (arith, l) in
      rw l (mod-eq-sub-mod over ∙ mod-eq_of_lt (omega (arith, over, h)))
]

half_apart : (steps x y : ℕ) → x < 4 * steps → y < 4 * steps → x ≢ y → half steps x ≢ half steps y
half_apart steps x y h k apart e = absurd (
    ground (
      arith,
      e,
      apart,
      wrap (x + 2 * steps) (4 * steps) (omega arith),
      wrap (y + 2 * steps) (4 * steps) (omega arith),
    ))

half_two : (steps k : ℕ) → k + 2 < 4 * steps → (half steps k + 2) % (4 * steps) ≡ half steps (k + 2)
half_two steps k h =
    let first = wrap (k + 2 * steps) (4 * steps) (omega arith) in
    let small : half steps k < 4 * steps = ground (arith, first) in
    ground (
      arith,
      first,
      wrap (half steps k + 2) (4 * steps) (omega (arith, small)),
      wrap (k + 2 + 2 * steps) (4 * steps) (omega arith),
    )

half-== :
    (steps x y : ℕ) → x < 4 * steps → y < 4 * steps → (half steps x == half steps y) ≡ (x == y)
half-== steps x y h g = elim (Bool-cases (x == y)) [
  | inl e ↦ rw e (ground (arith, e))
  | inr e ↦ rw e (ground (arith, e, half_apart steps x y h g))
]

module _ {ℓ} {V : Type ℓ} (w : ℕ) where
  -- A run of one quarter, at an element of a quarter.
  quarter-store :
      (out a : ℕ → V) (x y bin o : ℕ)
      → o < w
      → store out (copies w (w * x) bin) a (w * y + o)
        ≡ (if x == y then out (bin + o) else a (w * y + o))
  quarter-store out a x y bin o h = elim (Bool-cases (x == y)) [
    | inl e ↦
        let same : x ≡ y = ground (arith, e) in
        rw e (
          ap (λ (t : ℕ). store out (copies w (w * x) bin) a (w * t + o)) (sym same)
          ∙ store-copies out w (w * x) bin o a h)
    | inr e ↦
        let apart : (x < y) ⊎ (y < x) = ground (arith, e) in
        rw e (
          store-NotAt out (copies w (w * x) bin) a (w * y + o) (
            copies-NotAt w (w * x) bin (w * y + o) (elim apart [
              | inl l ↦ inr (omega (arith, scale_lt w x y l))
              | inr l ↦ inl (omega (arith, h, scale_lt w y x l))
            ])))
  ]

  module _ (steps : ℕ) (pos_w : 0 < w) (one : 1 ≤ steps) (few : 4 * w * steps < 2 ^ 31) where
    picks :
        (out a : ℕ → V) (k m o : ℕ)
        → k + 2 < 4 * steps
        → m < 4 * steps
        → o < w
        → (if half steps (k + 2) == half steps m
            then out (1 + 4 * w / 8 + o)
            else store out
                (copies w (w * half steps k) (1 + 4 * w * 5 / 8))
                a
                (w * half steps m + o))
          ≡ (if k + 2 == m
              then out (1 + 4 * w / 8 + o)
              else if k == m
              then out (1 + 4 * w * 5 / 8 + o)
              else a (w * half steps m + o))
    picks out a k m o h g l =
        rw
          (
            half-== steps (k + 2) m h g,
            quarter-store out a (half steps k) (half steps m) (1 + 4 * w * 5 / 8) o l,
            half-== steps k m (omega (arith, h)) g,
          )
          refl

    -- A block writes two quarters: its own, and the one after the next.
    spread_block-eq :
        (out a : ℕ → V) (k m o : ℕ)
        → k + 2 < 4 * steps
        → m < 4 * steps
        → o < w
        → spread_block (4 * w) (4 * w * steps) (k * w) out a (w * half steps m + o) ≡ (
            if k + 2 == m
            then out (1 + 4 * w / 8 + o)
            else if k == m
            then out (1 + 4 * w * 5 / 8 + o)
            else a (w * half steps m + o))
    spread_block-eq out a k m o h g l =
        let low : k * w < 2 ^ 31 =
          omega (arith, few, scale_lt w k (4 * steps) (omega (arith, h))) in
        let first = first_place-eq w steps k pos_w one few low in
        let first_wrap = wrap (k + 2 * steps) (4 * steps) (omega arith) in
        let small : half steps k < 4 * steps = ground (arith, first_wrap) in
        let second =
          second_place-eq w steps k (half steps k) pos_w one few first small
          ∙ ap (λ (t : ℕ). w * t) (half_two steps k h) in
        let b1 = 1 + 4 * w * 5 / 8 in
        let b2 = 1 + 4 * w / 8 in
        let quarter : 4 * w / 4 ≡ w = omega arith in
        let e = w * half steps m + o in
        let xs = copies (4 * w / 4) (first_place (4 * w * steps) (k * w)) b1 in
        let ys = copies (4 * w / 4) (second_place (4 * w) (4 * w * steps) (k * w)) b2 in
        let split : store out (xs ++ ys) a e ≡ store out ys (store out xs a) e =
          ap (λ (f : ℕ → V). f e) (store-append out xs ys a) in
        let xs' : xs ≡ copies w (w * half steps k) b1 =
          ap (λ (t : ℕ). copies t (first_place (4 * w * steps) (k * w)) b1) quarter
          ∙ ap (λ (t : ℕ). copies w t b1) first in
        let ys' : ys ≡ copies w (w * half steps (k + 2)) b2 =
          ap (λ (t : ℕ). copies t (second_place (4 * w) (4 * w * steps) (k * w)) b2) quarter
          ∙ ap (λ (t : ℕ). copies w t b2) second in
        let inner = store out (copies w (w * half steps k) b1) a in
        split
        ∙ (ap (λ (cs : List (ℕ × ℕ)). store out ys (store out cs a) e) xs'
            ∙ (ap (λ (cs : List (ℕ × ℕ)). store out cs inner e) ys'
                ∙ (quarter-store out inner (half steps (k + 2)) (half steps m) b2 o l
                    ∙ picks out a k m o h g l)))

-- The blocks of an interleaved sweep: those at 0 and 5 MHz of every 20 MHz, counted in 5 MHz.
abbrev pub IsStep : ℕ → ℕ → Type 0
IsStep steps k = (k < 4 * steps) × (k % 4 < 2)

-- What a block has for a quarter: the bins of its first row, or of its second.
abbrev pub quarter_bin {ℓ} : {V : Type ℓ} → ℕ → (ℕ → ℕ → V) → ℕ → ℕ → V
quarter_bin w out m o =
    if ltb (m % 4) 2 then out m (1 + 4 * w * 5 / 8 + o) else out (m - 2) (1 + 4 * w / 8 + o)

-- The array after the blocks of a sweep, in some order; `out k` is `fftwOut` for block `k`.
abbrev pub spread_sweep {ℓ} : {V : Type ℓ} → ℕ → ℕ → (ℕ → ℕ → V) → List ℕ → (ℕ → V) → ℕ → V
spread_sweep w steps out [] a = a
spread_sweep w steps out (k ∷ ks) a =
    spread_sweep w steps out ks (spread_block (4 * w) (4 * w * steps) (k * w) (out k) a)

module _ {V : Type 0} (w steps : ℕ) (pos_w : 0 < w) (one : 1 ≤ steps) (few : 4 * w * steps < 2 ^ 31)
    (out : ℕ → ℕ → V) where
  spread_sweep-keeps :
      (ks : List ℕ) (a : ℕ → V) (m o : ℕ)
      → All (IsStep steps) ks
      → m < 4 * steps
      → o < w
      → a (w * half steps m + o) ≡ quarter_bin w out m o
      → spread_sweep w steps out ks a (w * half steps m + o) ≡ quarter_bin w out m o
  spread_sweep-keeps [] a m o h g l e = e
  spread_sweep-keeps (k ∷ ks) a m o (h, hs) g l e =
      spread_sweep-keeps ks (spread_block (4 * w) (4 * w * steps) (k * w) (out k) a) m o hs g l (
        ground (
          arith,
          spread_block-eq w steps pos_w one few (out k) a k m o (omega (arith, h)) g l,
          h,
          e,
        ))

  -- After all blocks of a sweep of `steps` steps, each `k` times 5 MHz above the first frequency with a
  -- `k` as of an interleaved sweep, in any order and whatever the array held before: the `o`th element
  -- of the quarter that stands for the `m`th 5 MHz, half of all quarters later, holds the `o`th bin of
  -- the row of the block that covers those. A transform has `4 * w` bins, at least one step is swept,
  -- and the number of elements fits 31 bits.
  pub spread_sweep-eq :
      (ks : List ℕ) (a : ℕ → V) (m o : ℕ)
      → All (IsStep steps) ks
      → ((k : ℕ) → IsStep steps k → IsEntry k ks)
      → m < 4 * steps
      → o < w
      → spread_sweep w steps out ks a (w * half steps m + o) ≡ quarter_bin w out m o
  spread_sweep-eq ks a m o h every g l =
      let k = if ltb (m % 4) 2 then m else m - 2 in go ks a h (every k (ground (arith, g)))
    where
      go :
          (ks : List ℕ) (a : ℕ → V)
          → All (IsStep steps) ks
          → IsEntry (if ltb (m % 4) 2 then m else m - 2) ks
          → spread_sweep w steps out ks a (w * half steps m + o) ≡ quarter_bin w out m o
      go [] a h e = elim e [ ]
      go (k ∷ ks) a (h, hs) (inr e) =
          go ks (spread_block (4 * w) (4 * w * steps) (k * w) (out k) a) hs e
      go (k ∷ ks) a (h, hs) (inl e) =
          spread_sweep-keeps ks (spread_block (4 * w) (4 * w * steps) (k * w) (out k) a) m o hs g l
            (ground (
              arith,
              spread_block-eq w steps pos_w one few (out k) a k m o (omega (arith, h)) g l,
              h,
              e,
            ))
