-- ===== src/Storage/MicroCeph/Disks/Script.antt =====
-- The script of `prepareDiskForMicroCeph` in internal/storage/microceph.go, which frees and wipes a disk.
use docker_swarm_cluster_con.Prelude.{String, ◌^^◌}

unfoldable pub prepare_script : (disk : String) → String
prepare_script disk =
    "DISK=\""
    ^^ (disk
        ^^ ("\"\n\n\t\t# Do not operate on the root filesystem disk even if misconfigured\n"
            ^^ ("\t\tROOT_DEV=$(findmnt -n -o SOURCE / 2>/dev/null || echo \"\")\n"
                ^^ ("\t\tcase \"${ROOT_DEV}\" in\n\t\t  \"${DISK}\"|${DISK}[0-9]*)\n\t\t\texit 0\n"
                    ^^ ("\t\t\t;;\n\t\tesac\n\n\t\t# Disable swap on this disk or its partitions (if any)\n"
                        ^^ ("\t\tif [ -f /proc/swaps ]; then\n"
                            ^^ ("\t\t  awk 'NR>1 {print $1}' /proc/swaps | while read SWAPDEV; do\n"
                                ^^ ("\t\t    case \"${SWAPDEV}\" in\n\t\t      \"${DISK}\"|${DISK}[0-9]*)\n"
                                    ^^ ("\t\t\tswapoff \"${SWAPDEV}\" 2>/dev/null || true\n\t\t\t;;\n\t\t    esac\n"
                                        ^^ ("\t\t  done\n\t\tfi\n\n"
                                            ^^ ("\t\t# Unmount any mountpoints on this disk or its partitions (avoids \"device busy\").\n"
                                                ^^ ("\t\t# This is fully dynamic and does not rely on hard-coded mount paths (e.g. GlusterFS bricks).\n"
                                                    ^^ ("\t\tlsblk -lnpo NAME,MOUNTPOINT \"${DISK}\" \"${DISK}\"?* 2>/dev/null \\\n"
                                                        ^^ ("\t\t  | awk '$2 != \"\" {print $1 \" \" $2}' \\\n\t\t  | while read DEV MNT; do\n"
                                                            ^^ ("\t\t    if [ \"${MNT}\" != \"/\" ]; then\n"
                                                            ^^ ("\t\t      # Try device and mountpoint, with lazy-unmount fallback.\n"
                                                            ^^ ("\t\t      umount -f \"${DEV}\" 2>/dev/null || \\\n"
                                                            ^^ ("\t\t      umount -f \"${MNT}\" 2>/dev/null || \\\n"
                                                            ^^ ("\t\t      umount -fl \"${DEV}\" 2>/dev/null || \\\n"
                                                            ^^ ("\t\t      umount -fl \"${MNT}\" 2>/dev/null || true\n\t\t    fi\n\t\t  done\n\n"
                                                            ^^ ("\t\t# As an extra safety net, use findmnt (if available) to detach any remaining mounts\n"
                                                            ^^ ("\t\t# that still reference this block device.\n"
                                                            ^^ ("\t\tif command -v findmnt >/dev/null 2>&1; then\n"
                                                            ^^ ("\t\t  findmnt -Rn -S \"${DISK}\" 2>/dev/null | awk '{print $1}' | while read MNT; do\n"
                                                            ^^ ("\t\t    if [ \"${MNT}\" != \"/\" ]; then\n"
                                                            ^^ ("\t\t      umount -f \"${MNT}\" 2>/dev/null || umount -fl \"${MNT}\" 2>/dev/null || true\n"
                                                            ^^ ("\t\t    fi\n\t\t  done\n\t\tfi\n\n"
                                                            ^^ ("\t\t# Ensure the block device is marked read-write\n"
                                                            ^^ ("\t\tblockdev --setrw \"${DISK}\" 2>/dev/null || true\n\n"
                                                            ^^ ("\t\t# If ceph-volume is available, try to zap any existing Ceph/LVM metadata.\n"
                                                            ^^ ("\t\tif command -v ceph-volume >/dev/null 2>&1; then\n"
                                                            ^^ ("\t\t  ceph-volume lvm zap --destroy \"${DISK}\" 2>/dev/null || \\\n"
                                                            ^^ ("\t\t  ceph-volume raw zap --destroy \"${DISK}\" 2>/dev/null || true\n\t\tfi\n\n"
                                                            ^^ ("\t\t# Wipe filesystem signatures and RAID superblocks\n"
                                                            ^^ ("\t\tif command -v wipefs >/dev/null 2>&1; then\n"
                                                            ^^ ("\t\t  wipefs -af \"${DISK}\" 2>/dev/null || true\n\t\tfi\n\n"
                                                            ^^ ("\t\t# Zap partition table / GPT if sgdisk is available\n"
                                                            ^^ ("\t\tif command -v sgdisk >/dev/null 2>&1; then\n"
                                                            ^^ ("\t\t  sgdisk --zap-all \"${DISK}\" 2>/dev/null || true\n\t\tfi\n\n"
                                                            ^^ ("\t\t# Finally, zero the beginning of the device to clear any remaining labels\n"
                                                            ^^ ("\t\tdd if=/dev/zero of=\"${DISK}\" bs=1M count=10 conv=fsync,notrunc oflag=direct 2>/dev/null || true\n"
                                                            ^^ ("\t\tsync || true\n\t\t"))))))))))))
                                                            ))))))))))))))))))))))))))))))
