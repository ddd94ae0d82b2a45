-- ===== src/Session/Interleaving/Releasing.antt =====
-- How far the holder of the mutex is from its release.
use kopilot.Base.{
  ℕ, ◌+◌, ◌-◌, ◌*◌, ◌<◌, ◌≡◌, refl, sym, subst, ◌∙◌, ◌⊎◌, inl, inr, [], ◌∷◌, none, some, length,
  get_elem?, get_elem?-some, get_elem?-lt, length-remove_at, Result-cases, ok, arith,
}
use kopilot.Session.{Network, SessionManager, sessions, IntnInRange}
use kopilot.Session.Interleaving.{
  Call, add, dial, Reply, dialled, Body, add_reads, add_writes, dial_reads, dial_tests, dial_opens,
  dial_closes, dial_cuts, returns, idle, waits, holds, enter, Moved, advance, System, Step, calls,
  locks, runs, unlocks, moves, Reach, starts, steps,
}
use kopilot.Session.Interleaving.Serializing.{
  some-injective, none≢some, waits≢holds, idle≢holds, holds-injective, update_cases,
}

module _ (n : Network) where
  open n use {World, Session, Conn, intn, open_conn, close, key_string}

  -- A bound on the statements that are left before `Unlock`: four for each session of a dial.
  abbrev pub rank : SessionManager n → Body n → ℕ
  rank m (add_reads key s) = 2
  rank m (add_writes key s ss) = 1
  rank m (dial_reads key) = 2 + 4 * length (sessions n m (key_string key))
  rank m (dial_tests key ss) = 1 + 4 * length ss
  rank m (dial_opens key ss i) = 4 * length ss
  rank m (dial_closes key ss i s) = 4 * length ss - 1
  rank m (dial_cuts key ss i s) = 4 * length ss - 2
  rank m (returns c r) = 0

  -- The index in the goroutine's hands is one of its slice.
  abbrev InRange : Body n → Type 0
  InRange (dial_opens key ss i) = i < length ss
  InRange (dial_closes key ss i s) = get_elem? ss i ≡ some s
  InRange (dial_cuts key ss i s) = get_elem? ss i ≡ some s
  InRange b = Unit

  -- The next statement is `Unlock`, or there is one, and it comes nearer to `Unlock`.
  abbrev pub Nears : SessionManager n → World → Body n → Type 0
  Nears m w b =
      ((c : Call n) × (r : Reply n) × (b ≡ returns c r))
      ⊎ ((x : Moved n) × (advance n b m w ≡ some x) × (rank x.1 x.0 < rank m b))

  abbrev Goes : SessionManager n → World → Body n → Type 0
  Goes m w b =
      ((c : Call n) × (r : Reply n) × (b ≡ returns c r))
      ⊎ ((x : Moved n) × (advance n b m w ≡ some x) × InRange x.0 × (rank x.1 x.0 < rank m b))

  advance-Goes :
      (in_range : IntnInRange n) (m : SessionManager n) (w : World) (b : Body n)
      → InRange b
      → Goes m w b
  unfolding advance
  advance-Goes in_range m w (add_reads key s) h = inr (_, refl, tt, omega arith)
  advance-Goes in_range m w (add_writes key s ss) h = inr (_, refl, tt, omega arith)
  advance-Goes in_range m w (dial_reads key) h = inr (_, refl, tt, omega arith)
  advance-Goes in_range m w (dial_tests key []) h = inr (_, refl, tt, omega arith)
  advance-Goes in_range m w (dial_tests key (s ∷ rest)) h =
      inr (_, refl, in_range (length (s ∷ rest)) w (omega arith), omega arith)
  advance-Goes in_range m w (dial_opens key ss i) h =
      let (s, at) = get_elem?-some ss i h in
      elim (Result-cases (open_conn s w).0) [
        | inl (conn, o) ↦ inr (
          (returns (dial key) (dialled (ok conn)), m, (open_conn s w).1),
          rw (at, o, advance) refl,
          tt,
          omega arith,
        )
        | inr (er, o) ↦ inr (
          (dial_closes key ss i s, m, (open_conn s w).1),
          rw (at, o, advance) refl,
          at,
          omega arith,
        )
      ]
  advance-Goes in_range m w (dial_closes key ss i s) h =
      inr (_, refl, h, omega (arith, get_elem?-lt ss i s h))
  advance-Goes in_range m w (dial_cuts key ss i s) h =
      inr (_, refl, tt, omega (arith, length-remove_at ss i s h))
  advance-Goes in_range m w (returns c r) h = inl (c, r, refl)

  AllInRange : System n → Type 0
  AllInRange s = (j : ℕ) (b : Body n) → s.threads j ≡ holds b → InRange b

  enter-InRange : (c : Call n) → InRange (enter n c)
  enter-InRange (add key s) = tt
  enter-InRange (dial key) = tt

  advance-InRange :
      (in_range : IntnInRange n) (m : SessionManager n) (w : World) (b b' : Body n)
      (m' : SessionManager n) (w' : World)
      → InRange b
      → advance n b m w ≡ some (b', m', w')
      → InRange b'
  unfolding advance
  advance-InRange in_range m w b b' m' w' h e = elim (advance-Goes in_range m w b h) [
    | inl (c, r, q) ↦
        absurd (none≢some _ (sym (subst (λ x. advance n x m w ≡ none) (sym q) refl) ∙ e))
    | inr (x, on, good, near) ↦
        subst (λ (y : Moved n). InRange y.0) (some-injective x (b', m', w') (sym on ∙ e)) good
  ]

  Step-AllInRange : IntnInRange n → {s t : System n} → Step n s t → AllInRange s → AllInRange t
  unfolding AllInRange
  Step-AllInRange in_range {s} (calls i c at) v j b e =
      elim (update_cases n s.threads i j (waits c) b e) [
        | inl (_, q) ↦ absurd (waits≢holds n c b q)
        | inr (_, q) ↦ v j b q
      ]
  Step-AllInRange in_range {s} (locks i c at unowned) v j b e =
      elim (update_cases n s.threads i j (holds (enter n c)) b e) [
        | inl (_, q) ↦ subst InRange (holds-injective n _ b q) (enter-InRange c)
        | inr (_, q) ↦ v j b q
      ]
  Step-AllInRange in_range {s} (runs i b₀ b' m w at on) v j b e =
      elim (update_cases n s.threads i j (holds b') b e) [
        | inl (_, q) ↦
            subst InRange (holds-injective n b' b q)
              (advance-InRange in_range s.manager s.world b₀ b' m w (v i b₀ at) on)
        | inr (_, q) ↦ v j b q
      ]
  Step-AllInRange in_range {s} (unlocks i c r at) v j b e =
      elim (update_cases n s.threads i j idle b e) [
        | inl (_, q) ↦ absurd (idle≢holds n b q)
        | inr (_, q) ↦ v j b q
      ]
  Step-AllInRange in_range (moves w) v j b e = v j b e

  Reach-AllInRange : IntnInRange n → {s : System n} → Reach n s → AllInRange s
  unfolding AllInRange
  Reach-AllInRange in_range (starts w) j b e = absurd (idle≢holds n b e)
  Reach-AllInRange in_range (steps r st) j b e =
      Step-AllInRange in_range st (Reach-AllInRange in_range r) j b e

  -- Whatever the interleaving and whatever the network does in between, provided that `rand.Intn`
  -- keeps to its range: a goroutine that holds the mutex is at its `Unlock`, or it can make its
  -- next statement, without a panic, and is then nearer to it by `rank`, which gives two to an
  -- addition at its start, and to a dial four for each session and two more.
  pub Reach-Nears :
      {s : System n} (i : ℕ) (b : Body n)
      → IntnInRange n
      → Reach n s
      → s.threads i ≡ holds b
      → Nears s.manager s.world b
  unfolding AllInRange
  Reach-Nears {s} i b in_range r at =
      elim (advance-Goes in_range s.manager s.world b (Reach-AllInRange in_range r i b at)) [
        | inl (c, reply, q) ↦ inl (c, reply, q)
        | inr (x, on, good, near) ↦ inr (x, on, near)
      ]
