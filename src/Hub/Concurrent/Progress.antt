-- ===== src/Hub/Concurrent/Progress.antt =====
-- Requests that run at once get on.
use kopilot.Base.{
  true, [], ◌∷◌, ℕ, nat_eq, ◌≡◌, refl, sym, subst, inl, inr, ◌⊎◌, String, Bool-cases, Error, Result,
  ok, err, arith,
}
use kopilot.Api.{NamespacedName}
use kopilot.Session.{IntnInRange}
use kopilot.Session.Dialling.{dial_cluster-Contract, trivial_closing}
use kopilot.Http.Proxied.{cannot_write-true}
use kopilot.Http.{Url, Request, Writer}
use kopilot.Hub.{Env}
use kopilot.Hub.Config.{Config}
use kopilot.Hub.Concurrent.{Routine, answers, panics, starves, asks, adds, dials}
use kopilot.Hub.Concurrent.Serving.{Service}
use kopilot.Hub.Concurrent.Whole.{Handles, fetches, connects, proxies, relays}
use kopilot.Hub.Concurrent.System.{
  Goroutine, System, set, Step, accepts, asking, adding, dialling, moving, Reach, starts, steps,
}
use kopilot.Hub.Concurrent.Obeying.{Obeys, agent-Obeys, connect-Obeys, proxy-Obeys, peer-Obeys}

module _ (e : Env) (c : Config) where
  open e use {World}

  -- What is left of a routine when its next call has returned.
  pub data Next : Routine e Writer → Routine e Writer → Type 0 where
    has_asked :
        (move : World → World) (k : World → Routine e Writer) (v : World) → Next (asks move k) (k v)
    has_added :
        (key : NamespacedName) (sess : e.Session) (k : Routine e Writer) → Next (adds key sess k) k
    has_dialled :
        (key : NamespacedName) (k : Result e.Conn → Routine e Writer) (d : Result e.Conn)
        → Next (dials key k) (k d)

  -- Writes to the goroutine's client fail.
  abbrev pub CannotWrite : Goroutine e c → Type 0
  CannotWrite g = (g.writer.fails ≡ true) ⊎ (g.writer.hijacked ≡ true)

  -- The goroutine has answered, or it has panicked over a client to which writes fail, or it can
  -- make its next call.
  abbrev pub Proceeds : System e c → ℕ → Type 0
  Proceeds s i =
      ((w : Writer) × ((s.goroutines i).rest ≡ answers w))
      ⊎ (((s.goroutines i).rest ≡ panics) × CannotWrite (s.goroutines i))
      ⊎ ((t : System e c) × Step e c s t × Next (s.goroutines i).rest (t.goroutines i).rest)

  -- A routine that panics only where writes fail, and does not starve.
  abbrev GoesOnAs : Type 0 → Routine e Writer → Type 0
  GoesOnAs may_panic = Obeys e may_panic (Unit {0})

  abbrev GoesOn : Goroutine e c → Type 0
  GoesOn g = GoesOnAs (CannotWrite g) g.rest

  set_self : (gs : ℕ → Goroutine e c) (i : ℕ) (g : Goroutine e c) → set e c gs i g i ≡ g
  set_self gs i g = ground arith

  set-GoesOn :
      (gs : ℕ → Goroutine e c) (i : ℕ) (g : Goroutine e c)
      → ((j : ℕ) → GoesOn (gs j))
      → GoesOn g
      → (j : ℕ) → GoesOn (set e c gs i g j)
  set-GoesOn gs i g old new j = elim (Bool-cases (nat_eq i j)) [
    | inl h ↦ rw h new
    | inr h ↦ rw h (old j)
  ]

  module _ (in_range : IntnInRange e.net) (target : Url)
      (parses : e.url_parse "http://127.0.0.1" ≡ ok target) (tmpl : e.Template)
      (templated : e.template_parse e.agent_yaml_template ≡ ok tmpl)
      (writes : (image url : String)
        → (text : String) × (e.template_execute tmpl
              (("imageName", image) ∷ ("connectURL", url) ∷ [])
            ≡ ok text)) where
    no_text :
        (tmpl' : e.Template) (image url : String) (er : Error)
        → e.template_parse e.agent_yaml_template ≡ ok tmpl'
        → e.template_execute tmpl' (("imageName", image) ∷ ("connectURL", url) ∷ []) ≡ err er
        → ⊥
    no_text tmpl' image url er parsed failed = let (text, written) = writes image url in cc

    Handles-GoesOn :
        {service : Service e}
        → Handles e c service
        → (w : Writer) (r : Request)
        → GoesOnAs ((w.fails ≡ true) ⊎ (w.hijacked ≡ true)) (service w r)
    Handles-GoesOn (fetches key) w r =
        agent-Obeys e _ (Unit {0}) c key (λ er q. cc)
          (λ tmpl' image url er p q. absurd (no_text tmpl' image url er p q)) w r
          (λ text q. (cannot_write-true text w q).1)
    Handles-GoesOn (connects key) w r = connect-Obeys e _ (Unit {0}) c tt key w r
    Handles-GoesOn (proxies has_peers key sub) w r =
        proxy-Obeys e _ (Unit {0}) c (λ er q. cc) has_peers key sub w r
    Handles-GoesOn relays w r = peer-Obeys e _ (Unit {0}) c (λ er q. cc) w r

    Reach-GoesOn : {s : System e c} → Reach e c s → (i : ℕ) → GoesOn (s.goroutines i)
    unfolding Obeys
    Reach-GoesOn (starts r w v) = λ i. tt
    Reach-GoesOn (steps {s} reach (accepts i service w w' r handles idle)) =
        set-GoesOn s.goroutines i _ (Reach-GoesOn reach) (Handles-GoesOn handles w r)
    Reach-GoesOn (steps {s} reach (asking i move k eq)) =
        set-GoesOn s.goroutines i _ (Reach-GoesOn reach)
          (subst (GoesOnAs (CannotWrite (s.goroutines i))) eq (Reach-GoesOn reach i) s.world)
    Reach-GoesOn (steps {s} reach (adding i key sess k eq)) =
        set-GoesOn s.goroutines i _ (Reach-GoesOn reach)
          (subst (GoesOnAs (CannotWrite (s.goroutines i))) eq (Reach-GoesOn reach i)).1
    Reach-GoesOn (steps {s} reach (dialling i key k d eq dial)) =
        set-GoesOn s.goroutines i _ (Reach-GoesOn reach)
          (subst (GoesOnAs (CannotWrite (s.goroutines i))) eq (Reach-GoesOn reach i) d.0)
    Reach-GoesOn (steps {s} reach (moving v)) = Reach-GoesOn reach

    continues :
        (s : System e c) (i : ℕ) {m : Routine e Writer} (g : Goroutine e c)
        → (s.goroutines i).rest ≡ m
        → Next m g.rest
        → Next (s.goroutines i).rest (set e c s.goroutines i g i).rest
    continues s i {m} g eq next =
        subst (λ m'. Next m' (set e c s.goroutines i g i).rest) (sym eq)
          (subst (λ (g' : Goroutine e c). Next m g'.rest) (sym (set_self s.goroutines i g)) next)

    proceeds :
        (s : System e c) (i : ℕ) (m : Routine e Writer)
        → (s.goroutines i).rest ≡ m
        → GoesOnAs (CannotWrite (s.goroutines i)) m
        → Proceeds s i
    unfolding Obeys
    proceeds s i (answers w) eq h = inl (w, eq)
    proceeds s i panics eq h = inr (inl (eq, h))
    proceeds s i starves eq h = absurd h
    proceeds s i (asks move k) eq h =
        inr (inr (_, asking i move k eq, continues s i _ eq (has_asked move k s.world)))
    proceeds s i (adds key sess k) eq h =
        inr (inr (_, adding i key sess k eq, continues s i _ eq (has_added key sess k)))
    proceeds s i (dials key k) eq h =
        let (d, dial, _) =
          dial_cluster-Contract e.net in_range (trivial_closing e.net) key s.manager s.world in
        inr (inr (_, dialling i key k d eq dial, continues s i _ eq (has_dialled key k d.0)))

    -- However the calls of concurrent requests interleave, each goroutine of a request has answered
    -- (or has broken its answer off with `http.ErrAbortHandler`, as its writer notes) or can make its
    -- next call; it panics otherwise only if writes to its client fail. So none runs out of fuel,
    -- is stuck on the registry, or panics over an empty list of sessions, a URL or a template, as
    -- long as `rand.Intn` keeps to its range, the URL of the local target parses, and the agent's
    -- manifest is a template that can be filled in.
    pub Reach-Proceeds : {s : System e c} → Reach e c s → (i : ℕ) → Proceeds s i
    Reach-Proceeds {s} reach i = proceeds s i (s.goroutines i).rest refl (Reach-GoesOn reach i)
