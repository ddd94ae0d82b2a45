-- ===== src/Hub/Startup/Guarded.antt =====
-- When the server for peers starts, and whom it lets in.
use kopilot.Base.{
  ready, ready-injective, ◌≡◌, ◌↔◌, refl, sym, subst, ◌∙◌, String, [], ◌∷◌, true, Result, ok,
  Result-cases, inl, inr, arith,
}
use kopilot.Hub.{Env}
use kopilot.Hub.Config.{Config}
use kopilot.Hub.Peer.{cert_path, peer_handler}
use kopilot.Hub.Startup.{PeerServer, set_up_server}

module _ (e : Env) (c : Config) (read_file : String → e.World → Result String) where
  open e use {World, Certificate, load_key_pair}

  -- The server shows the hub's certificate and lets in clients of the CA only.
  pub record IsGuarded (v : World) (s : PeerServer e) : Type 0 where
    pub cert : Certificate
    pub cert_eq : load_key_pair (cert_path e c "tls.crt") (cert_path e c "tls.key") v ≡ ok cert
    pub shown : s.certificates ≡ cert ∷ []
    pub client_auth_eq : s.client_auth ≡ true
    pub client_cas_eq : read_file (cert_path e c "ca.crt") v ≡ ok s.client_cas
    pub handler_eq : s.handler ≡ peer_handler e c

  -- The server for peers is set up exactly if the hub's key pair and the CA's certificate can be
  -- read; a server that is set up shows that key pair, demands of its clients a certificate of that
  -- CA, and answers by the route for peers.
  pub set_up_server-IsGuarded :
      (v : World)
      → (((s : PeerServer e) × (set_up_server e c read_file v ≡ ready s)) ↔ (
          (cert : Certificate) × (ca : String) × (load_key_pair
              (cert_path e c "tls.crt")
              (cert_path e c "tls.key")
              v
            ≡ ok cert)
          × (read_file (cert_path e c "ca.crt") v ≡ ok ca)))
        × ((s : PeerServer e) → set_up_server e c read_file v ≡ ready s → IsGuarded v s)
  unfolding set_up_server
  set_up_server-IsGuarded v =
      elim (Result-cases (load_key_pair (cert_path e c "tls.crt") (cert_path e c "tls.key") v)) [
        | inr (er, q) ↦ (
          ((λ (s, h). absurd (ground arith)), λ (cert, ca, q', _). absurd (ground arith)),
          λ s h. absurd (ground arith),
        )
        | inl (cert, q) ↦ elim (Result-cases (read_file (cert_path e c "ca.crt") v)) [
          | inr (er, k) ↦ (
            ((λ (s, h). absurd (ground arith)), λ (cert', ca, _, k'). absurd (ground arith)),
            λ s h. absurd (ground arith),
          )
          | inl (ca, k) ↦
              let server : PeerServer e = record {
                addr = c.peer_bind_addr;
                handler = peer_handler e c;
                certificates = cert ∷ [];
                client_auth = true;
                client_cas = ca;
              } in
              let up : set_up_server e c read_file v ≡ ready server = ground arith in
              (
                ((λ _. (cert, ca, q, k)), λ _. (server, up)),
                λ s h. subst (IsGuarded v) (ready-injective server s (sym up ∙ h)) (record {
                  cert = cert;
                  cert_eq = q;
                  shown = refl;
                  client_auth_eq = refl;
                  client_cas_eq = k;
                  handler_eq = refl;
                }),
              )
        ]
      ]
