-- ===== src/Hub/Startup.antt =====
-- pkg/hub/peer/server.go: what `StartServer` sets up before it listens.
pub mod Guarded
use Prim.Native.String.{◌++◌}
use kopilot.Base.{Setup, ready, fatal, String, List, [], ◌∷◌, Bool, true, Result, ok, err}
use kopilot.Hub.{Env, Handler}
use kopilot.Hub.Config.{Config}
use kopilot.Hub.Peer.{cert_path, peer_handler}

-- The `http.Server` with its `tls.Config`. The pool of client CAs is the text that it is filled
-- from; `client_auth` tells whether a client must show a certificate of one of them.
pub record PeerServer (e : Env) : Type 0 where
  pub addr : String
  pub handler : Handler e
  pub certificates : List e.Certificate
  pub client_auth : Bool
  pub client_cas : String

-- `read_file` is `ioutil.ReadFile`.
module _ (e : Env) (c : Config) (read_file : String → e.World → Result String) where
  open e use {World, load_key_pair}

  unfoldable pub set_up_server : World → Setup (PeerServer e)
  set_up_server v = elim (load_key_pair (cert_path e c "tls.crt") (cert_path e c "tls.key") v) [
    | err er ↦ fatal ("failed to load peer cert: " ++ er.text)
    | ok cert ↦ elim (read_file (cert_path e c "ca.crt") v) [
      | err er ↦ fatal ("failed to load peer CA: " ++ er.text)
      | ok ca ↦ ready (record {
        addr = c.peer_bind_addr;
        handler = peer_handler e c;
        certificates = cert ∷ [];
        client_auth = true;
        client_cas = ca;
      })
    ]
  ]
