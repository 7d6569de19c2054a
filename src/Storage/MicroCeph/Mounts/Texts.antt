-- ===== src/Storage/MicroCeph/Mounts/Texts.antt =====
-- The commands and shell scripts by which internal/storage/microceph.go mounts CephFS.
use Prim.Native.Char.{code}
use Prim.Native.String.{String, [], ◌∷◌}
use docker_swarm_cluster_con.Prelude.{Bool, not, ◌&&◌, ◌==◌, ◌^^◌, ◌=?◌, if◌then◌else◌}
use docker_swarm_cluster_con.Storage.Types.{ClusterCredentials}

abbrev pub install_fuse_cmd : String
install_fuse_cmd =
    "\n\t\tif command -v apt-get >/dev/null 2>&1; then\n"
    ^^ ("\t\t\tsudo apt-get update -qq && sudo apt-get install -y ceph-fuse\n"
        ^^ ("\t\telif command -v dnf >/dev/null 2>&1; then\n"
            ^^ ("\t\t\tsudo dnf install -y ceph-fuse\n"
                ^^ ("\t\telif command -v yum >/dev/null 2>&1; then\n"
                    ^^ ("\t\t\tsudo yum install -y ceph-fuse\n\t\telse\n"
                        ^^ ("\t\t\techo \"unsupported package manager\" && exit 1\n\t\tfi\n\t"))))))

-- strings.ReplaceAll(s, ",", " ")
commas_to_spaces : String → String
commas_to_spaces [] = ""
commas_to_spaces (c ∷ s) =
    let rest = commas_to_spaces s in if code c =? 44 then " " ^^ rest else c ∷ rest

unfoldable pub conf_cmd : ClusterCredentials → String
unfolding commas_to_spaces
conf_cmd creds =
    "\n\t\tif [ ! -f /etc/ceph/ceph.conf ]; then\n\t\t\tsudo mkdir -p /etc/ceph\n"
    ^^ ("\t\t\techo \"[global]\" | sudo tee /etc/ceph/ceph.conf\n\t\t\techo \"mon_host = "
        ^^ (commas_to_spaces creds.mon_addrs
            ^^ ("\" | sudo tee -a /etc/ceph/ceph.conf\n\t\tfi\n\t")))

unfoldable pub keyring_cmd : ClusterCredentials → String
keyring_cmd creds =
    "\n\t\tsudo mkdir -p /etc/ceph\n"
    ^^ ("\t\techo \"[client.admin]\" | sudo tee /etc/ceph/ceph.client.admin.keyring\n"
        ^^ ("\t\techo \"    key = "
            ^^ (creds.admin_key ^^ ("\" | sudo tee -a /etc/ceph/ceph.client.admin.keyring\n\t"))))

abbrev pub dmesg_cmd : String
dmesg_cmd = "dmesg | grep -i ceph | tail -n 5 || true"

abbrev pub modprobe_cmd : String
modprobe_cmd = "sudo modprobe ceph 2>&1 && lsmod | grep -q '^ceph ' && echo 'loaded'"

abbrev pub fuse_check_cmd : String
fuse_check_cmd = "which ceph-fuse 2>/dev/null || command -v ceph-fuse 2>/dev/null"

abbrev pub dpkg_cmd : String
dpkg_cmd = "DEBIAN_FRONTEND=noninteractive sudo dpkg --configure -a 2>/dev/null || true"

abbrev pub mount_all_cmd : String
mount_all_cmd = "sudo mount -a"

abbrev pub reload_cmd : String
reload_cmd = "sudo systemctl daemon-reload"

-- Everything that the newer mount syntax needs is known.
unfoldable pub has_fsid : ClusterCredentials → Bool
has_fsid c = not (c.fsid == "") && (not (c.fs_name == "") && not (c.mon_addr_opt == ""))

unfoldable pub kernel_cmd : (path : String) → ClusterCredentials → String
unfolding has_fsid
kernel_cmd path c =
    if has_fsid c
    then "sudo mount -t ceph \"admin@"
      ^^ (c.fsid
          ^^ ("."
              ^^ (c.fs_name
                  ^^ ("=/\" "
                      ^^ (path
                          ^^ (" -o mon_addr="
                              ^^ (c.mon_addr_opt
                                  ^^ (",secret=" ^^ (c.admin_key ^^ ",_netdev")))))))))
    else "sudo mount -t ceph "
      ^^ (c.mon_addrs
          ^^ (":/ "
              ^^ (path
                  ^^ (" -o name=admin,secret=" ^^ (c.admin_key ^^ ",_netdev,mount_timeout=30")))))

unfoldable pub fuse_cmd : (path : String) → String
fuse_cmd path = "sudo ceph-fuse " ^^ (path ^^ " --id admin")

unfoldable pub fstab_entry : (path : String) → ClusterCredentials → String
unfolding has_fsid
fstab_entry path c =
    if has_fsid c
    then "admin@"
      ^^ (c.fsid
          ^^ ("."
              ^^ (c.fs_name
                  ^^ ("=/ "
                      ^^ (path
                          ^^ (" ceph mon_addr="
                              ^^ (c.mon_addr_opt
                                  ^^ (",secret="
                                      ^^ (c.admin_key
                                          ^^ ",_netdev,x-systemd.mount-timeout=45s,x-systemd.device-timeout=45s 0 0")))))))))
    else c.mon_addrs
      ^^ (":/ "
          ^^ (path
              ^^ (" ceph name=admin,secret="
                  ^^ (c.admin_key
                      ^^ ",_netdev,mount_timeout=30,x-systemd.mount-timeout=45s,x-systemd.device-timeout=45s 0 0"))))

abbrev pub cleanup_cmd : (path : String) → String
cleanup_cmd path = "sudo sed -i '\\|" ^^ (path ^^ "|d' /etc/fstab")

abbrev pub append_cmd : (entry : String) → String
append_cmd entry = "echo '" ^^ (entry ^^ "' | sudo tee -a /etc/fstab >/dev/null")

abbrev pub df_cmd : (path : String) → String
df_cmd path = "df -h " ^^ (path ^^ " || true")

abbrev pub mounted_cmd : (path : String) → String
mounted_cmd path = "mountpoint -q " ^^ path

abbrev pub responsive_cmd : (path : String) → String
responsive_cmd path = "timeout 5 ls " ^^ (path ^^ " >/dev/null 2>&1&& echo 'ok' || echo 'stale'")
