-- ===== src/Hub/Config.antt =====
-- pkg/hub/config.go: the hub's configuration and its flags.
use kopilot.Base.{String, Table, lookup, none, some}

pub record Config : Type 0 where
  pub agent_image : String
  pub public_addr : String
  pub peer_bind_addr : String
  pub peer_cert_dir : String
  pub service_namespace : String
  pub service_name : String
  pub ip : String

-- `var C`.
abbrev pub defaults : Config
defaults = record {
  agent_image = "";
  public_addr = "kubernetes.default";
  peer_bind_addr = ":6443";
  peer_cert_dir = "/tmp/k8s-subresource-server/cert";
  service_namespace = "kopilot-system";
  service_name = "kopilot-hub";
  ip = "";
}

-- `flag.StringVar` binds a field to a flag: what was given for it, or the value that stood there.
abbrev pub string_var : Table String → String → String → String
string_var given name old = elim (lookup name given) [ none ↦ old | some v ↦ v ]

-- `InitFlags`, and the parse of the flags given.
unfoldable pub init_flags : Table String → Config → Config
init_flags given c = record {
  agent_image = string_var given "agent-image" c.agent_image;
  public_addr = string_var given "public-addr" c.public_addr;
  peer_bind_addr = string_var given "peer-bind" c.peer_bind_addr;
  peer_cert_dir = string_var given "peer-cert-dir" c.peer_cert_dir;
  service_namespace = string_var given "service-namespace" c.service_namespace;
  service_name = string_var given "service-name" c.service_name;
  ip = string_var given "ip" c.ip;
}
