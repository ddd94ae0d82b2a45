-- ===== src/Hub/Peer/Rounds.antt =====
-- What every run of `TryNextPeer` does, whatever URLs, certificates and peers it meets.
use Prim.Native.String.{◌++◌}
use kopilot.Base.{
  ℕ, zero, suc, ◌<◌, ◌≤◌, ◌+◌, get_elem?-lt, ◌≡◌, refl, String, List, ◌==◌, nat_eq, Bool-cases,
  Option-cases, Result-cases, inl, inr, Error, errorf, Outcome, done, length, get_elem?, arith,
}
use kopilot.Api.{NamespacedName}
use kopilot.Session.{SessionManager}
use kopilot.Http.{forwarded, Url, Request, Writer, serve_http}
use kopilot.Hub.{Env, State}
use kopilot.Hub.Config.{Config}
use kopilot.Hub.Subresources.{next_peer}
use kopilot.Hub.Peer.{proxy_prefix, cert_path, peer_proxy, try_peer, try_next_peer}

module _ (e : Env) (c : Config) (key : NamespacedName) where
  open e use {World, Certificate, peer_round_trip}

  abbrev Retry : Type 0
  Retry = Writer → Request → Error → State e → Outcome (Writer × State e)

  -- An outcome that is a result with a property.
  abbrev pub Ends : (State e → Type 0) → Outcome (Writer × State e) → Type 0
  Ends P o = (w : Writer) × (s : State e) × (o ≡ done (w, s)) × P s

  module _ (P : State e → Type 0) (m : SessionManager e.net) (here : (v : World) → P (m, v))
      (retry : Retry)
      (again : (w : Writer) (r : Request) (er : Error) (v : World)
        → Ends P (retry w r er (m, v))) where
    serve_http-Ends :
        (target : Url) (cert : Certificate) (w : Writer) (r : Request) (v : World)
        → Ends P (serve_http (peer_proxy e c retry key target cert) w r (m, v))
    unfolding serve_http peer_proxy
    serve_http-Ends target cert w r v =
        elim (Result-cases
          (peer_round_trip cert (forwarded ((peer_proxy e c retry key target cert).director r))
            v).0) [
              | inl (resp, q) ↦ elim (Bool-cases (nat_eq resp.status 502)) [
                | inl bad ↦ rw (q, serve_http, bad) (again w _ (errorf "") _)
                | inr good ↦ rw (q, serve_http, good) (_, _, refl, here _)
              ]
              | inr (er, q) ↦ elim (Bool-cases (er.text == "")) [
                | inl silent ↦ rw (q, serve_http, silent) (again w _ er _)
                | inr loud ↦ rw (q, serve_http, loud) (_, _, refl, here _)
              ]
            ]

    try_peer-Ends :
        (peer : String) (w : Writer) (r : Request) (v : World)
        → Ends P (try_peer e c retry peer key w r (m, v))
    unfolding try_peer
    try_peer-Ends peer w r v = elim (Bool-cases (peer == "")) [
      | inl last ↦ rw last (_, _, refl, here v)
      | inr named ↦
          rw named
            (elim (Result-cases
              (e.url_parse ("https://" ++ (peer ++ proxy_prefix key.namespace key.name)))) [
                | inr (er, q) ↦ rw q (_, _, refl, here v)
                | inl (target, q) ↦
                    rw q
                      (elim (Result-cases
                        (e.load_key_pair (cert_path e c "tls.crt") (cert_path e c "tls.key") v)) [
                          | inr (er, q') ↦ rw q' (_, _, refl, here v)
                          | inl (cert, q') ↦ rw q' (serve_http-Ends target cert w r v)
                        ])
              ])
    ]

  -- `TryNextPeer` over a list of peers comes to an end in at most one call more than there are
  -- peers, and leaves the registry of sessions alone.
  pub try_next_peer-Ends :
      (all : List String) (fuel calls : ℕ) (w : Writer) (r : Request) (er : Error)
      (m : SessionManager e.net) (v : World)
      → calls ≤ length all
      → length all < fuel + calls
      → Ends (λ s. s.0 ≡ m) (try_next_peer e c fuel (next_peer all) calls key w r er (m, v))
  unfolding try_next_peer next_peer
  try_next_peer-Ends all zero calls w r er m v room enough = absurd (omega arith)
  try_next_peer-Ends all (suc fuel) calls w r er m v room enough =
      elim (Option-cases (get_elem? all calls)) [
        | inl past ↦ rw (past, next_peer) (last calls)
        | inr (p, at) ↦
            rw (at, next_peer)
              (try_peer-Ends (λ s. s.0 ≡ m) m (λ _. refl)
                (try_next_peer e c fuel (next_peer all) (suc calls) key)
                (λ w' r' er' v'.
                  try_next_peer-Ends all fuel (suc calls) w' r' er' m v'
                    (omega (arith, get_elem?-lt all calls p at)) (omega arith))
                p w r v)
      ]
    where
      last :
          (n : ℕ)
          → Ends
              (λ s. s.0 ≡ m)
              (try_peer e c (try_next_peer e c fuel (next_peer all) (suc n) key) "" key w r (m, v))
      last n = unfold try_peer in (_, _, refl, refl)
