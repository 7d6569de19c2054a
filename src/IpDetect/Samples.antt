-- ===== src/IpDetect/Samples.antt =====
-- Decoders for runs in which no address is looked at: internal/ipdetect/ssh.go then falls back to the
-- name of the node.
use docker_swarm_cluster_con.Prelude.{none}
use docker_swarm_cluster_con.IpDetect.Networks.{Decoders}

abbrev pub decoders : Decoders
decoders = record {
  parse_ip = λ s. none;
  parse_cidr = λ s. none;
  ip_string = λ ip. "";
  subnet_ip = λ n. "";
  mask_ones = λ n. 24;
  network_id = λ s. none;
  inspect = λ s. none;
  netbird = λ s. none;
  tailscale = λ s. none;
}
