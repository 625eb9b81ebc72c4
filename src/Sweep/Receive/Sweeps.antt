-- ===== src/Sweep/Receive/Sweeps.antt =====
-- How a run of the sweep (src/lib/hackrf/hackrf_sweep.c) comes to its end.
use hackrf.Prelude.{
  ℕ, ◌+◌, ◌*◌, ◌^◌, ◌<◌, ◌≡◌, refl, ap, ◌⊎◌, inl, inr, true, false, List, [], ◌∷◌, ◌++◌, length,
  arith,
}
use hackrf.Sweep.Blocks.{Settings, Progress, Spectrum, rx_callback}
use hackrf.Sweep.Blocks.Reports.{
  Within, Ended, rx_callback_sweeps, rx_callback_exiting, rx_callback_counts,
}
use hackrf.Sweep.Receive.{Event, transfer, signal, receive_all, sigint_callback_handler}

-- Once an exit is requested, nothing more is transformed.
receive_all_exiting :
    (set : Settings) (es : List Event) (p : Progress)
    → p.do_exit ≡ true
    → ((receive_all set es p).0.do_exit ≡ true) × ((receive_all set es p).1 ≡ [])
unfolding receive_all
receive_all_exiting set [] p e = (e, refl)
receive_all_exiting set (transfer bytes now_s now_us n ∷ es) p e =
    let q = (rx_callback set bytes now_s now_us n p).1.0 in
    ground (arith, rx_callback_exiting set bytes now_s now_us n p e, receive_all_exiting set es q)
receive_all_exiting set (signal ∷ es) p e =
    receive_all_exiting set es (sigint_callback_handler p) refl

-- The last event is a signal.
abbrev EndsBySignal : List Event → Type 0
EndsBySignal [] = ⊥
EndsBySignal (signal ∷ []) = Unit {0}
EndsBySignal (transfer bytes now_s now_us n ∷ []) = ⊥
EndsBySignal (e ∷ f ∷ es) = EndsBySignal (f ∷ es)

-- A run that came to its end: the events up to the one that requested the exit gave everything, and that one
-- was a signal or the transfer that completed the last sweep.
pub record HasEnded (set : Settings) (p : Progress) (es : List Event) : Type 0 where
  pub before : List Event
  pub after : List Event
  pub all : es ≡ before ++ after
  pub exits : (receive_all set before p).0.do_exit ≡ true
  pub why : EndsBySignal before ⊎ Ended set p (receive_all set before p).0
  pub reported : (receive_all set es p).1 ≡ (receive_all set before p).1

EndsBySignal-cons :
    (bytes : ℕ → ℕ) (now_s now_us n : ℕ) (es : List Event)
    → EndsBySignal es
    → EndsBySignal (transfer bytes now_s now_us n ∷ es)
EndsBySignal-cons bytes now_s now_us n [] h = h
EndsBySignal-cons bytes now_s now_us n (e ∷ es) h = h

-- What a run still has to go through, after transfers that did not end it.
Within-append :
    (set : Settings) (p q r : Progress) → Within set p q → Within set q r → Within set p r
Within-append set p q r v w = ground arith

Ended-append : (set : Settings) (p q r : Progress) → Within set p q → Ended set q r → Ended set p r
Ended-append set p q r v w = ground arith

module _ (set : Settings) (bytes : ℕ → ℕ) (now_s now_us n : ℕ) (p : Progress) where
  -- The transfer ended the run.
  HasEnded-now :
      (es : List Event)
      → let q = (rx_callback set bytes now_s now_us n p).1.0 in
        q.do_exit ≡ true → Ended set p q → HasEnded set p (transfer bytes now_s now_us n ∷ es)
  unfolding receive_all
  HasEnded-now es exits ended =
      let (q, xs) = (rx_callback set bytes now_s now_us n p).1 in
      record {
        before = transfer bytes now_s now_us n ∷ [];
        after = es;
        all = refl;
        exits = exits;
        why = inr ended;
        reported = ap (λ (ys : List Spectrum). xs ++ ys) (receive_all_exiting set es q exits).1;
      }

  -- It did not, and the rest of the run ended it.
  HasEnded-later :
      (es : List Event)
      → let q = (rx_callback set bytes now_s now_us n p).1.0 in
        Within set p q → HasEnded set q es → HasEnded set p (transfer bytes now_s now_us n ∷ es)
  unfolding receive_all
  HasEnded-later es within h =
      let (q, xs) = (rx_callback set bytes now_s now_us n p).1 in
      let t = transfer bytes now_s now_us n in
      record {
        before = t ∷ h.before;
        after = h.after;
        all = ap (λ (fs : List Event). t ∷ fs) h.all;
        exits = h.exits;
        why = elim h.why [
          | inl by_signal ↦ inl (EndsBySignal-cons bytes now_s now_us n h.before by_signal)
          | inr ended ↦ inr (Ended-append set p q (receive_all set h.before q).0 within ended)
        ];
        reported = ap (λ (ys : List Spectrum). xs ++ ys) h.reported;
      }

-- A run of the sweep, over any transfers and signals, either still goes on, with no sweep too many, or has
-- come to its end: by a signal, or by the transfer that completed the last sweep, which is one more in
-- one-shot mode and otherwise the number that finite mode asks for. From then on no block is transformed
-- any more. Before, no exit was requested, the run was to go on, and the count leaves room in its 64
-- bits.
pub receive_all-HasEnded :
    (set : Settings) (es : List Event) (p : Progress)
    → p.do_exit ≡ false
    → p.sweep_count + 16 * length es < 2 ^ 64
    → (set.finite_mode ≡ false) ⊎ (p.sweep_count < set.num_sweeps)
    → let q = (receive_all set es p).0 in ((q.do_exit ≡ false) × Within set p q) ⊎ HasEnded set p es
unfolding receive_all
receive_all-HasEnded set [] p e few f = inl (e, ground arith)
receive_all-HasEnded set (transfer bytes now_s now_us n ∷ es) p e few f =
    let q = (rx_callback set bytes now_s now_us n p).1.0 in
    elim (rx_callback_sweeps set bytes now_s now_us n p (omega arith) e f) [
      | inr (exits, ended) ↦ inr (HasEnded-now set bytes now_s now_us n p es exits ended)
      | inl (goes, within) ↦
          elim (receive_all-HasEnded set es q goes
            (omega (arith, rx_callback_counts set bytes now_s now_us n p)) within.1) [
              | inl (goes', within') ↦
                  inl (goes', Within-append set p q (receive_all set es q).0 within within')
              | inr h ↦ inr (HasEnded-later set bytes now_s now_us n p es within h)
            ]
    ]
receive_all-HasEnded set (signal ∷ es) p e few f = inr (record {
  before = signal ∷ [];
  after = es;
  all = refl;
  exits = refl;
  why = inl tt;
  reported = (receive_all_exiting set es (sigint_callback_handler p) refl).1;
})
