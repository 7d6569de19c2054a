-- ===== src/Storage/Files.antt =====
-- `writeS3CredentialsFile` and `createMountHelperScript` of internal/storage/provider.go: files that
-- are written on a node through its shell. `run` is the SSH pool's `Run`; `marshal_indent` is
-- `json.MarshalIndent` and `dir` is `filepath.Dir`; on Linux `filepath.ToSlash` changes nothing.
use docker_swarm_cluster_con.Prelude.{String, true, false, Option, none, some, ok, err, ◌^^◌}
use docker_swarm_cluster_con.Prelude.Action.{Action, ◌>>◌, fail}
use docker_swarm_cluster_con.Ssh.{RunResult}
use docker_swarm_cluster_con.Storage.Types.{ClusterCredentials, RadosGatewayInfo, S3Credentials}

pub data FileError : Type 0 where
  marshal_failed directory_failed write_failed chmod_failed : FileError

unfoldable pub s3_credentials : RadosGatewayInfo → S3Credentials
s3_credentials info = record {
  endpoints = info.endpoints;
  access_key = info.access_key;
  secret_key = info.secret_key;
  user_id = info.user_id;
  bucket_name = info.bucket_name;
}

unfoldable pub mount_script : String → ClusterCredentials → String
mount_script mount_path creds =
    "#!/bin/bash\nMOUNT_PATH=\""
    ^^ (mount_path
        ^^ ("\"\nADMIN_KEY=\""
            ^^ (creds.admin_key
                ^^ ("\"\nFSID=\""
                    ^^ (creds.fsid
                        ^^ ("\"\nFSNAME=\""
                            ^^ (creds.fs_name
                                ^^ ("\"\nMON_ADDRS=\""
                                    ^^ (creds.mon_addr_opt
                                        ^^ ("\"\nFSTAB_ENTRY=\"admin@${FSID}.${FSNAME}=/ ${MOUNT_PATH} ceph mon_addr=${MON_ADDRS},secret=${ADMIN_KEY},_netdev,x-systemd.mount-timeout=45s,x-systemd.device-timeout=45s 0 0\"\n"
                                            ^^ ("mkdir -p \"$MOUNT_PATH\"\n"
                                                ^^ ("grep -qF \"$MOUNT_PATH\" /etc/fstab || echo \"$FSTAB_ENTRY\" >> /etc/fstab\n"
                                                    ^^ ("systemctl daemon-reload\nmount -a\ndf -h \"$MOUNT_PATH\"\n")))))))))))))

module _ {W : Type 0} (run : String → String → W → RunResult × W) where
  -- A command on a host, whose failure is the given error.
  unfoldable pub shell : {E : Type 0} → E → String → String → Action W E (Unit {0})
  shell e host cmd w =
      let (r, w₁) = run host cmd w in elim r.failed [ true ↦ (err e, w₁) | false ↦ (ok tt, w₁) ]

  unfoldable pub write_s3_credentials_file :
      (marshal_indent : S3Credentials → Option String) (dir : String → String)
      → (node path : String) → RadosGatewayInfo
      → Action W FileError (Unit {0})
  unfolding shell s3_credentials
  write_s3_credentials_file marshal_indent dir node path info =
      elim (marshal_indent (s3_credentials info)) [
        | none ↦ fail marshal_failed
        | some text ↦ do
          shell directory_failed node ("mkdir -p '" ^^ (dir path ^^ "'"))
          shell write_failed node ("cat > '" ^^ (path ^^ ("' << 'EOF'\n" ^^ (text ^^ "\nEOF"))))
      ]

  unfoldable pub create_mount_helper_script :
      (node mount_path : String) → ClusterCredentials → Action W FileError (Unit {0})
  unfolding shell mount_script
  create_mount_helper_script node mount_path creds = do
    let scripts_dir = mount_path ^^ "/scripts"
    let script_path = scripts_dir ^^ "/mount-cephfs.sh"
    shell directory_failed node ("timeout 30 mkdir -p " ^^ scripts_dir)
    shell write_failed node (
        "timeout 30 bash -c 'cat > "
        ^^ (script_path
            ^^ (" << '\"'\"'SCRIPT_EOF'\"'\"'\n"
                ^^ (mount_script mount_path creds ^^ "SCRIPT_EOF'"))))
    shell chmod_failed node ("timeout 10 chmod +x " ^^ script_path)
