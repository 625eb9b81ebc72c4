-- ===== src/Device/Lists/Texts.antt =====
-- The text that `hackrf_device_list` (src/lib/hackrf/hackrf.c) makes of a serial number, in a buffer that
-- is used for all devices.
use hackrf.Prelude.{
  ℕ, zero, suc, ◌<◌, ◌≡◌, ◌≢◌, refl, ap, ◌∙◌, List, [], ◌∷◌, ◌++◌, length, set, length-set, arith,
}
use hackrf.Prelude.Texts.{text}
use hackrf.Prelude.Int.{pos}
use hackrf.Platform.{ControlReply}
use hackrf.Requests.Info.{overwrite}
use hackrf.Device.Lists.{read_serial}

-- The characters of a text, none of them 0.
abbrev pub IsText : List ℕ → Type 0
IsText [] = Unit {0}
IsText (c ∷ cs) = (c ≢ 0) × IsText cs

text-overwrite :
    (buffer cs : List ℕ)
    → length cs < length buffer
    → IsText cs
    → text (set (overwrite buffer cs) (length cs) 0) ≡ cs
text-overwrite [] cs h t = absurd (omega arith)
text-overwrite (b ∷ buffer) [] h t = refl
text-overwrite (b ∷ buffer) (zero ∷ cs) h t = absurd (t.0 refl)
text-overwrite (b ∷ buffer) (suc c ∷ cs) h t =
    ap (λ (xs : List ℕ). suc c ∷ xs) (text-overwrite buffer cs (omega arith) t.1)

length-overwrite : (buffer cs : List ℕ) → length (overwrite buffer cs) ≡ length buffer
length-overwrite [] cs = refl
length-overwrite (b ∷ buffer) [] = refl
length-overwrite (b ∷ buffer) (c ∷ cs) = ap suc (length-overwrite buffer cs)

pub length-read_serial :
    (buffer : List ℕ) (r : ControlReply) → length (read_serial buffer r) ≡ length buffer
length-read_serial buffer r =
    length-set (overwrite buffer r.received) _ 0 ∙ length-overwrite buffer r.received

-- A number of 32 characters comes out whole, whatever the buffer held before.
pub text-read_serial :
    (buffer cs : List ℕ)
    → length cs ≡ 32
    → 32 < length buffer
    → IsText cs
    → text (read_serial buffer (record { result = pos 32; received = cs })) ≡ cs
text-read_serial buffer cs whole room t =
    rw whole at (text-overwrite buffer cs (omega (arith, whole)) t)

-- A write where a list ends and another begins.
pub set-append {ℓ} :
    {A : Type ℓ} (xs : List A) (y : A) (ys : List A) (v : A)
    → set (xs ++ (y ∷ ys)) (length xs) v ≡ xs ++ (v ∷ ys)
set-append [] y ys v = refl
set-append (x ∷ xs) y ys v = ap (λ zs. x ∷ zs) (set-append xs y ys v)
