-- ===== src/ShareRequest/Tests.antt =====
-- A request for a path, with the parameters of a kernel's command line.
use homura.Bytes.{bytes_dec, codes}
use homura.Git.{starts_with, trim_prefix}
use homura.Prelude.{◌≡◌, ◌≢◌, refl, true, false, none, some, [], ◌∷◌, ◌++◌}
use homura.ShareRequest.Handed.{handed_over, main-asks}
use homura.ShareRequest.Words.{spaceless}
use homura.ShareRequest.{
  readable, unreadable, main, asks, no_kernel_params, not_absolute, whole_mount, usage_asked,
  read_kernel_params, no_sharing, incomplete_9p, is_read_only, request_via_9p, request_via_virtiofs,
  denied, exposed, server_error,
}
use homura.Vm.Qemu.{QemuConfig, build_kernel_cmdline}
use homura.Vm.{ninep}

program : Unit {0}
unfolding main read_kernel_params is_read_only starts_with trim_prefix bytes_dec request_via_9p
    request_via_virtiofs
program = tt

before_asking :
    (main (codes "x" ∷ []) none ≡ not_absolute)
    × (main (codes "/mnt/host" ∷ []) none ≡ whole_mount)
    × (main (codes "help" ∷ []) none ≡ usage_asked)
    × (main (codes "/x" ∷ []) (some (codes "rw")) ≡ no_kernel_params no_sharing)
    × (read_kernel_params (some (codes "p9.token=t")) ≡ unreadable incomplete_9p)
unfolding program
before_asking = (refl, refl, refl, refl, refl)

-- Where one mode is incomplete, the other is taken.
both_modes :
    read_kernel_params (some (codes "virtiofs.port=1 p9.token=t p9.port=2"))
    ≡ readable (record { share_mode = codes "9p"; token = codes "t"; port = codes "2" })
unfolding program
both_modes = refl

answers :
    (request_via_9p (λ line. some (record { error = some line; result = none })) (some (some []))
      ≡ denied [])
    × (request_via_9p
          (λ line. some (record { error = none; result = some (true, line) }))
          (some (some []))
        ≡ exposed [])
    × (request_via_virtiofs (λ body. none) (some (403, some [])) ≡ server_error 403)
unfolding program
answers = (refl, refl, refl)

abbrev config : QemuConfig
config = record {
  kernel_path = [];
  initrd_path = [];
  rootfs_path = [];
  memory = 2048;
  cpus = 2;
  passt_socket = [];
  host_home_dir = codes "/home/luna";
  share_mode = ninep;
  ninep_token = codes "abc";
  ninep_control_port = (false, 4001);
  ninep_port = (false, 4000);
  virtiofs_socket = [];
  virtiofs_vm_token = [];
  virtiofs_vm_port = 0;
  host_ip = codes "127.0.0.2";
  ssh_port = 10000;
  port_start = 10000;
  port_end = 10009;
  slot_number = 1;
  console_socket = [];
  console_log = [];
}

has_token : codes "abc" ≢ []
has_token e = cc

main-asks_example :
    main (codes "/mnt/host/data" ∷ codes "ro" ∷ []) (some (build_kernel_cmdline config ++ 10 ∷ []))
    ≡ asks (codes "/data") (is_read_only (codes "ro" ∷ [])) (handed_over config)
unfolding spaceless
main-asks_example = main-asks config (codes "data") (codes "ro" ∷ []) (refl, refl) (has_token, refl)
