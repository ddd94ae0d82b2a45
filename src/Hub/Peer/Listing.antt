-- ===== src/Hub/Peer/Listing.antt =====
-- Which peers `ListPeers` names.
use Prim.Native.String.{◌++◌}
use text.Mathlib.TextLemmas.{
  cons-ne-nil, cons-append, append_cancel_right, append-ne-nil_of_right_ne-nil,
}
use kopilot.Base.{
  ℕ, ◌≡◌, ◌≢◌, ◌↔◌, refl, ap, ◌∙◌, sym, String, List, [], ◌∷◌, false, ◌⊎◌, inl, inr, In, All, subst,
  text_eq-false, Bool-cases, eq_iff, ◌==◌, ok, is_ok, arith,
}
use kopilot.Hub.{Env, EndpointPort, EndpointSubset}
use kopilot.Hub.Config.{Config}
use kopilot.Hub.Peer.{peer_port, peer_address, peer_addresses, peers_of, list_peers}

-- The port of the name "peer" if there is one, and else the first.
pub record IsPeerPort (first : EndpointPort) (more : List EndpointPort) (port : ℕ) : Type 0 where
  pub chosen : EndpointPort
  pub listed : In chosen (first ∷ more)
  pub port_eq : chosen.port ≡ port
  pub preferred :
      (chosen.name ≡ "peer") ⊎ ((chosen ≡ first) × All (λ p. p.name ≢ "peer") (first ∷ more))

peer_port-cases :
    (port : ℕ) (ps : List EndpointPort)
    → (All (λ p. p.name ≢ "peer") ps × (peer_port port ps ≡ port))
      ⊎ ((p : EndpointPort) × In p ps × (p.name ≡ "peer") × (p.port ≡ peer_port port ps))
unfolding peer_port
peer_port-cases port [] = inl (tt, refl)
peer_port-cases port (p ∷ ps) = elim (Bool-cases (p.name == "peer")) [
  | inl named ↦ inr (p, inl refl, (eq_iff _ _).0 named, rw named)
  | inr other ↦ elim (peer_port-cases port ps) [
    | inl (none_named, e) ↦
        inl (((λ q. ground (arith, eq_iff p.name "peer")), none_named), rw other e)
    | inr (q, i, named, e) ↦ inr (q, inr i, named, rw other e)
  ]
]

IsPeerPort-peer_port :
    (p : EndpointPort) (ps : List EndpointPort) → IsPeerPort p ps (peer_port p.port (p ∷ ps))
IsPeerPort-peer_port p ps = elim (peer_port-cases p.port (p ∷ ps)) [
  | inl (none_named, e) ↦ record {
    chosen = p;
    listed = inl refl;
    port_eq = sym e;
    preferred = inr (refl, none_named);
  }
  | inr (q, i, named, e) ↦ record { chosen = q; listed = i; port_eq = e; preferred = inl named }
]

module _ (e : Env) (c : Config) where
  open e use {World, get_endpoints}

  -- The address of a listed endpoint other than the hub itself.
  abbrev pub IsPeer : ℕ → List String → String → Type 0
  IsPeer port ips a = (ip : String) × In ip ips × (ip ≢ c.ip) × (a ≡ peer_address e c port ip)

  In-peer_addresses :
      (port : ℕ) (ips : List String) (a : String)
      → In a (peer_addresses e c port ips)
      → IsPeer port ips a
  unfolding peer_addresses
  In-peer_addresses port [] a i = absurd i
  In-peer_addresses port (ip ∷ ips) a i = elim (Bool-cases (ip == c.ip)) [
    | inl own ↦ later (In-peer_addresses port ips a) (rw (own, peer_addresses) at i)
    | inr other ↦ elim (rw (other, peer_addresses) at i) [
      | inl here ↦ (ip, inl refl, (λ q. ground (arith, eq_iff ip c.ip)), sym here)
      | inr there ↦ later (In-peer_addresses port ips a) there
    ]
  ]
    where
      later : {T : Type 0} → (T → IsPeer port ips a) → T → IsPeer port (ip ∷ ips) a
      later f t = let (jp, j, apart, at) = f t in (jp, inr j, apart, at)

  peer_addresses-In :
      (port : ℕ) (ips : List String) (ip : String)
      → In ip ips
      → ip ≢ c.ip
      → In (peer_address e c port ip) (peer_addresses e c port ips)
  unfolding peer_addresses
  peer_addresses-In port [] ip i h = absurd i
  peer_addresses-In port (jp ∷ ips) ip (inl same) h =
      rw (text_eq-false jp c.ip (λ q. h (sym same ∙ q)), peer_addresses)
        (inl (ap (peer_address e c port) same))
  peer_addresses-In port (jp ∷ ips) ip (inr i) h = elim (Bool-cases (jp == c.ip)) [
    | inl own ↦ rw (own, peer_addresses) (peer_addresses-In port ips ip i h)
    | inr other ↦ rw (other, peer_addresses) (inr (peer_addresses-In port ips ip i h))
  ]

  -- What `ListPeers` returns where the service has a subset with a port.
  pub record IsListing (p : EndpointPort) (ps : List EndpointPort) (ips peers : List String)
      : Type 0 where
    pub port : ℕ
    pub chosen : IsPeerPort p ps port
    pub peers_iff : (a : String) → In a peers ↔ IsPeer port ips a
    pub without_self : ¬ (In (peer_address e c port c.ip) peers)
    pub nonempty : (a : String) → In a peers → a ≢ ""

  IsListing-peer_addresses :
      (p : EndpointPort) (ps : List EndpointPort) (ips : List String)
      → IsListing p ps ips (peer_addresses e c (peer_port p.port (p ∷ ps)) ips)
  IsListing-peer_addresses p ps ips =
      let n = peer_port p.port (p ∷ ps) in
      record {
        port = n;
        chosen = IsPeerPort-peer_port p ps;
        peers_iff = λ a. (
          In-peer_addresses n ips a,
          λ (ip, i, apart, at).
              subst (λ b. In b (peer_addresses e c n ips)) (sym at)
                (peer_addresses-In n ips ip i apart),
        );
        without_self = λ i.
            let (ip, _, apart, at) = In-peer_addresses n ips _ i in
            apart (sym (append_cancel_right c.ip ip (":" ++ e.decimal n) at));
        nonempty = λ a i q.
            let (ip, _, _, at) = In-peer_addresses n ips a i in
            append-ne-nil_of_right_ne-nil ip
              (λ z. cons-ne-nil _ _ (sym (cons-append _ "" (e.decimal n)) ∙ z)) (sym at ∙ q);
      }

  -- `ListPeers` names the endpoints of the first subset other than the hub itself, each at the
  -- port of the name "peer", or the first port if none has it. The list has no empty text, by
  -- which `nextPeer` tells its end.
  pub list_peers-IsListing :
      (v v' : World) (subset : EndpointSubset) (more : List EndpointSubset) (p : EndpointPort)
      (ps : List EndpointPort)
      → get_endpoints c.service_namespace c.service_name v ≡ (ok (subset ∷ more), v')
      → subset.ports ≡ p ∷ ps
      → (peers : List String) × (list_peers e c v ≡ (ok peers, v'))
        × IsListing p ps subset.addresses peers
  unfolding list_peers peers_of
  list_peers-IsListing v v' subset more p ps got ports =
      (_, ground arith, IsListing-peer_addresses p ps subset.addresses)

  -- `ListPeers` fails exactly if the request fails, the service has no subset, or its first subset
  -- has no port.
  pub list_peers-fails_iff :
      (v : World)
      → (is_ok (list_peers e c v).0 ≡ false) ↔ (
          (is_ok (get_endpoints c.service_namespace c.service_name v).0 ≡ false)
          ⊎ ((get_endpoints c.service_namespace c.service_name v).0 ≡ ok [])
          ⊎ ((subset : EndpointSubset) × (more : List EndpointSubset) × ((get_endpoints
                  c.service_namespace c.service_name v).0
                ≡ ok (subset ∷ more))
              × (subset.ports ≡ [])))
  unfolding list_peers peers_of
  list_peers-fails_iff v = ground arith
