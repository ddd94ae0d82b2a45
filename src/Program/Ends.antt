-- ===== src/Program/Ends.antt =====
-- How the hub's process ends.
use kopilot.Base.{ℕ, zero, suc, ◌≡◌, ◌<◌, ◌⊎◌, inl, inr, refl, sym, subst, none, some, Error, arith}
use kopilot.Program.{
  finished, failed, Hub, after_serving, exit_after, on_signal, Step, signals, api_returns,
  peers_returns, waits, Reach, starts, steps,
}

-- Some server has returned an error.
abbrev pub HasFailed : Hub → Type 0
HasFailed h = (er : Error) × ((h.api ≡ failed er) ⊎ (h.peers ≡ failed er))

-- Why a process has the status `n`.
abbrev pub Because : Hub → ℕ → Type 0
Because h n =
    ((n ≡ 0) × (h.api ≡ finished) × (h.peers ≡ finished) × (0 < h.interrupts))
    ⊎ ((n ≡ 1) × ((1 < h.interrupts) ⊎ HasFailed h))

record Inv (h : Hub) : Type 0 where
  stopped : (h.api ≡ finished) ⊎ (h.peers ≡ finished) → 0 < h.interrupts
  because : (n : ℕ) → h.exit ≡ some n → Because h n

on_signal-first : (h : Hub) → h.interrupts ≡ 0 → on_signal h ≡ record h { interrupts = 1 }
unfolding on_signal
on_signal-first h q = rw (q, on_signal)

on_signal-second :
    (h : Hub) (n : ℕ)
    → h.interrupts ≡ suc n
    → on_signal h ≡ record h { interrupts = suc (suc n); exit = some 1 }
unfolding on_signal
on_signal-second h n q = rw (q, on_signal)

signals-Inv : (h : Hub) → h.exit ≡ none → Inv h → Inv (on_signal h)
signals-Inv h on v = elim (zero_or_suc h.interrupts) [
  | inl q ↦
      subst Inv (sym (on_signal-first h q))
        (record { stopped = λ _. omega arith; because = λ n k. cc })
  | inr (n, q) ↦ subst Inv (sym (on_signal-second h n q)) (record {
    stopped = λ _. omega arith;
    because = λ m k. inr (ground arith, inl (omega arith));
  })
]
  where
    zero_or_suc : (i : ℕ) → (i ≡ 0) ⊎ ((n : ℕ) × (i ≡ suc n))
    zero_or_suc zero = inl refl
    zero_or_suc (suc n) = inr (n, refl)

Step-Inv : {h k : Hub} → Step h k → Inv h → Inv k
unfolding after_serving exit_after
Step-Inv {h} (signals on) v = signals-Inv h on v
Step-Inv {h} (api_returns none on at ok) v = record {
  stopped = λ _. ground (arith, ok refl);
  because = λ n q. cc;
}
Step-Inv {h} (api_returns (some er) on at ok) v = record {
  stopped = elim [ inl q ↦ cc | inr q ↦ v.stopped (inr q) ];
  because = λ n q. inr (ground arith, inr (er, inl refl));
}
Step-Inv {h} (peers_returns none on at ok) v = record {
  stopped = λ _. ground (arith, ok refl);
  because = λ n q. cc;
}
Step-Inv {h} (peers_returns (some er) on at ok) v = record {
  stopped = elim [ inl q ↦ v.stopped (inl q) | inr q ↦ cc ];
  because = λ n q. inr (ground arith, inr (er, inr refl));
}
Step-Inv {h} (waits on api peers) v = record {
  stopped = v.stopped;
  because = λ n q. inl (ground arith, api, peers, v.stopped (inl api));
}

Reach-Inv : {h : Hub} → Reach h → Inv h
Reach-Inv starts = record { stopped = elim [ inl q ↦ cc | inr q ↦ cc ]; because = λ n q. cc }
Reach-Inv (steps r s) = Step-Inv s (Reach-Inv r)

-- The hub's process ends with status 0 only after a signal has come and both its servers have
-- returned without an error; else with status 1, and then a second signal has come or a server has
-- failed. A server returns without an error only once its context is cancelled.
pub exit-Because : {h : Hub} (n : ℕ) → Reach h → h.exit ≡ some n → Because h n
exit-Because n r q = (Reach-Inv r).because n q
