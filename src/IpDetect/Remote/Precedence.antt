-- ===== src/IpDetect/Remote/Precedence.antt =====
-- Which network `DetectNetworkInfoSSH` of internal/ipdetect/ssh.go chooses.
use docker_swarm_cluster_con.Prelude.{
  ◌≡◌, refl, String, List, [], ◌∷◌, Option, none, some, ap, ◌∙◌, sym, split_lines, Option-cases,
  if◌then◌else◌, inl, inr, trim_space, ◌↔◌,
}
use docker_swarm_cluster_con.IpDetect.Classes.{IsLine, line_network_iff}
use docker_swarm_cluster_con.Ssh.{RunResult}
use docker_swarm_cluster_con.IpDetect.Remote.{
  get_docker_subnets_ssh, detect_network_info_ssh, cidrs_cmd,
}
use docker_swarm_cluster_con.IpDetect.{
  IpClass, class_cgnat, class_rfc1918, class_other, class_loopback, Subnet,
}
use docker_swarm_cluster_con.IpDetect.Networks.{
  Decoders, NetworkInfo, line_network, file_network, scan_networks, prefer_overlay,
}

abbrev pub earlier : Option NetworkInfo → Option NetworkInfo → Option NetworkInfo
earlier (some i) o = some i
earlier none o = o

earlier_assoc : (a b c : Option NetworkInfo) → earlier a (earlier b c) ≡ earlier (earlier a b) c
earlier_assoc (some i) b c = refl
earlier_assoc none b c = refl

abbrev pub overlay_of : Option (IpClass × NetworkInfo) → Option NetworkInfo
overlay_of (some (class_cgnat, i)) = some i
overlay_of _ = none

abbrev pub private_of : Option (IpClass × NetworkInfo) → Option NetworkInfo
private_of (some (class_rfc1918, i)) = some i
private_of _ = none

prefer-parts : (c p : Option NetworkInfo) → prefer_overlay (c, p) ≡ earlier c p
unfolding prefer_overlay
prefer-parts none p = refl
prefer-parts (some c) p = refl

module _ (d : Decoders) (docker : List Subnet) where
  -- The network of the last line whose address is an overlay address outside of Docker's networks.
  abbrev pub last_overlay : List String → Option NetworkInfo
  last_overlay [] = none
  last_overlay (l ∷ ls) = earlier (last_overlay ls) (overlay_of (line_network d docker l))

  -- The network of the first line whose address is a private address outside of Docker's networks.
  abbrev pub first_private : List String → Option NetworkInfo
  first_private [] = none
  first_private (l ∷ ls) = earlier (private_of (line_network d docker l)) (first_private ls)

  file-parts :
      (c p : Option NetworkInfo) (o : Option (IpClass × NetworkInfo))
      → file_network (c, p) o ≡ (earlier (overlay_of o) c, earlier p (private_of o))
  unfolding file_network
  file-parts c none none = refl
  file-parts c (some i) none = refl
  file-parts c p (some (class_cgnat, i)) = elim (Option-cases p) [
    | inl e ↦ rw e refl
    | inr (x, e) ↦ rw e refl
  ]
  file-parts c none (some (class_rfc1918, i)) = refl
  file-parts c (some j) (some (class_rfc1918, i)) = refl
  file-parts c none (some (class_other, i)) = refl
  file-parts c (some j) (some (class_other, i)) = refl
  file-parts c none (some (class_loopback, i)) = refl
  file-parts c (some j) (some (class_loopback, i)) = refl

  scan-parts :
      (ls : List String) (c p : Option NetworkInfo)
      → scan_networks d docker ls (c, p)
        ≡ (earlier (last_overlay ls) c, earlier p (first_private ls))
  unfolding scan_networks
  scan-parts [] c none = refl
  scan-parts [] c (some p) = refl
  scan-parts (l ∷ ls) c p =
      let o = line_network d docker l in
      rw (file-parts c p o, scan-parts ls, earlier_assoc (last_overlay ls), earlier_assoc p) refl

-- The network that is detected on a node is that of the last listed overlay address; if there is
-- none, that of the first listed private address; if there is none either, or if the listing fails,
-- there is no network. A line has a network, with a class, exactly if its trimmed text is an IPv4
-- address with a prefix, and the address lies in none of the networks that Docker shows on the node;
-- the class is that of the address's bytes.
pub detect_network_info_precedence :
    {W : Type 0} (d : Decoders) (run : String → String → W → RunResult × W) (node : String) (w : W)
    → (detect_network_info_ssh d run node w ≡ (
        let (docker, w₁) = get_docker_subnets_ssh d run node w in
        let (r, w₂) = run node cidrs_cmd w₁ in
        let lines = split_lines (trim_space r.stdout) in
        (
          if r.failed
              then none
              else earlier (last_overlay d docker lines) (first_private d docker lines),
          w₂,
        )))
      × ((docker : List Subnet) (line : String) (k : IpClass) (info : NetworkInfo)
          → (line_network d docker line ≡ some (k, info)) ↔ IsLine d docker line k info)
unfolding detect_network_info_ssh
detect_network_info_precedence d run node w =
    let (docker, w₁) = get_docker_subnets_ssh d run node w in
    let (r, w₂) = run node cidrs_cmd w₁ in
    let lines = split_lines (trim_space r.stdout) in
    (
      ap (λ o. (if r.failed then none else o, w₂))
          (ap prefer_overlay (scan-parts d docker lines none none)
            ∙ prefer-parts (earlier (last_overlay d docker lines) none)
                (first_private d docker lines)
            ∙ sym
                (earlier_assoc (last_overlay d docker lines) none (first_private d docker lines))),
      λ docker line k info. line_network_iff d docker line k info,
    )
