-- ===== src/Keepalived/Resolve.antt =====
-- The priorities and states that `resolveNodeConfig` of internal/services/keepalived.go gives.
use docker_swarm_cluster_con.Prelude.{
  ℕ, zero, suc, ◌+◌, ◌≡◌, refl, ap, arith, String, false, List, [], ◌∷◌, some, get_elem?,
  if◌then◌else◌, ◌=?◌, sub_ℕ,
}
use docker_swarm_cluster_con.Config.{NodeConfig}
use docker_swarm_cluster_con.Keepalived.{
  KeepalivedNodeConfig, configured, resolve_node_config, resolve_all,
}

-- Neither the priority nor the state is set in the configuration.
abbrev pub IsAutomatic : NodeConfig → Type 0
IsAutomatic n = (configured n.keepalived.priority ≡ false) × (configured n.keepalived.state ≡ false)

resolve_node_config-auto :
    (n : NodeConfig) (i : ℕ) (iface vip : String)
    → IsAutomatic n
    → resolve_node_config n i iface vip ≡ record {
      hostname = n.ssh_fqdn_or_ip;
      priority = sub_ℕ 100 i;
      state = if i =? 0 then "MASTER" else "BACKUP";
      interface = iface;
      vip = vip;
    }
unfolding resolve_node_config
resolve_node_config-auto n i iface vip (p, s) = rw (p, s) refl

resolve_all-from :
    (ns : List NodeConfig) (start i : ℕ) (iface vip : String) (n : NodeConfig)
    → get_elem? ns i ≡ some n
    → get_elem? (resolve_all ns start iface vip) i
      ≡ some (resolve_node_config n (start + i) iface vip)
unfolding resolve_all
resolve_all-from [] start i iface vip n h = ground arith
resolve_all-from (m ∷ ns) start zero iface vip n h =
    let e : m ≡ n = ground arith in let z : start ≡ start + 0 = omega arith in ground arith
resolve_all-from (m ∷ ns) start (suc i) iface vip n h =
    let z : start + suc i ≡ start + 1 + i = omega arith in
    rw z (resolve_all-from ns (start + 1) i iface vip n h)

-- Among nodes that set neither, the node at index i gets the priority 100 - i, and the first one, and
-- no other, is the master. (From index 100 on that is no VRRP priority, which starts at 1.)
pub resolve_all-auto :
    (ns : List NodeConfig) (i : ℕ) (iface vip : String) (n : NodeConfig)
    → get_elem? ns i ≡ some n
    → IsAutomatic n
    → (c : KeepalivedNodeConfig) × (get_elem? (resolve_all ns 0 iface vip) i ≡ some c)
      × (c.hostname ≡ n.ssh_fqdn_or_ip)
      × (c.priority ≡ sub_ℕ 100 i)
      × (c.state ≡ (if i =? 0 then "MASTER" else "BACKUP"))
resolve_all-auto ns i iface vip n h a =
    let e = resolve_node_config-auto n i iface vip a in
    let z : 0 + i ≡ i = omega arith in
    (
      resolve_node_config n i iface vip,
      rw z at (resolve_all-from ns 0 i iface vip n h),
      ap (λ c. c.hostname) e,
      ap (λ c. c.priority) e,
      ap (λ c. c.state) e,
    )
