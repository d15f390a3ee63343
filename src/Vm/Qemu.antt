-- ===== src/Vm/Qemu.antt =====
-- internal/vm/qemu.go: the arguments of QEMU and of the guest's kernel.
use homura.Bytes.{Bytes, codes}
use homura.Decimal.{decimal}
use homura.Prelude.{
  ℕ, Bool, true, false, List, [], ◌∷◌, ◌++◌, ◌==◌, not, length, if◌then◌else◌, ◌&&◌,
}
use homura.Vm.{ShareMode, virtiofs}

pub record QemuConfig : Type 0 where
  pub kernel_path : Bytes
  pub initrd_path : Bytes
  pub rootfs_path : Bytes
  pub memory : ℕ
  pub cpus : ℕ
  pub passt_socket : Bytes
  pub host_home_dir : Bytes
  pub share_mode : ShareMode
  pub ninep_token : Bytes
  pub ninep_control_port : Bool × ℕ
  pub ninep_port : Bool × ℕ
  pub virtiofs_socket : Bytes
  pub virtiofs_vm_token : Bytes
  pub virtiofs_vm_port : ℕ
  pub host_ip : Bytes
  pub ssh_port : ℕ
  pub port_start : ℕ
  pub port_end : ℕ
  pub slot_number : ℕ
  pub console_socket : Bytes
  pub console_log : Bytes

-- A number with its sign.
abbrev pub signed_decimal : Bool × ℕ → Bytes
signed_decimal (true, n) = codes "-" ++ decimal n
signed_decimal (false, n) = decimal n

-- A part that is left out where a text is empty.
abbrev pub unless_empty : Bytes → Bytes → Bytes
unless_empty [] part = []
unless_empty (c ∷ s) part = part

abbrev pub is_virtiofs : ShareMode → Bool
is_virtiofs virtiofs = true
is_virtiofs _ = false

-- The token and the ports of the file system daemon.
unfoldable pub share_params : QemuConfig → Bytes
unfolding decimal
share_params cfg =
    if is_virtiofs cfg.share_mode
    then unless_empty cfg.virtiofs_vm_token (
        codes " virtiofs.token="
        ++ cfg.virtiofs_vm_token
        ++ codes " virtiofs.port="
        ++ decimal cfg.virtiofs_vm_port)
    else unless_empty cfg.ninep_token (
        codes " p9.token="
        ++ cfg.ninep_token
        ++ codes " p9.port="
        ++ signed_decimal cfg.ninep_control_port
        ++ codes " p9.listenport="
        ++ signed_decimal cfg.ninep_port)

-- buildKernelCmdline
unfoldable pub build_kernel_cmdline : QemuConfig → Bytes
unfolding share_params decimal
build_kernel_cmdline cfg =
    codes "earlyprintk=ttyS0 console=ttyS0 root=/dev/vda rootfstype=ext4 rw"
    ++ share_params cfg
    ++ unless_empty cfg.host_home_dir (codes " host.home=" ++ cfg.host_home_dir)
    ++ unless_empty cfg.host_ip (
        codes " vm.hostip="
        ++ cfg.host_ip
        ++ codes " vm.sshport="
        ++ decimal cfg.ssh_port
        ++ codes " vm.portstart="
        ++ decimal cfg.port_start
        ++ codes " vm.portend="
        ++ decimal cfg.port_end
        ++ codes " vm.slot="
        ++ decimal cfg.slot_number)

-- The serial console: a socket of the daemon, or the terminal.
abbrev pub console_args : Bytes → Bytes → List Bytes
console_args [] log = codes "-serial" ∷ codes "stdio" ∷ []
console_args (c ∷ socket) log =
    codes "-chardev"
    ∷ (codes "socket,id=ser0,path="
        ++ (c ∷ socket)
        ++ codes ",server=on,wait=off,logfile="
        ++ log
        ++ codes ",logappend=on")
    ∷ codes "-serial"
    ∷ codes "chardev:ser0"
    ∷ []

-- The device of virtiofs, where its socket is known.
unfoldable pub virtiofs_args : QemuConfig → List Bytes
virtiofs_args cfg =
    if is_virtiofs cfg.share_mode && not (length cfg.virtiofs_socket == 0)
    then codes "-chardev"
      ∷ (codes "socket,id=virtiofs0,path=" ++ cfg.virtiofs_socket)
      ∷ codes "-device"
      ∷ codes "vhost-user-fs-pci,queue-size=1024,chardev=virtiofs0,tag=hostfs"
      ∷ []
    else []

-- BuildQEMUArgs
unfoldable pub build_qemu_args : QemuConfig → List Bytes
unfolding build_kernel_cmdline virtiofs_args decimal
build_qemu_args cfg =
    codes "-M"
    ∷ codes "q35"
    ∷ codes "-enable-kvm"
    ∷ codes "-cpu"
    ∷ codes "host"
    ∷ codes "-m"
    ∷ (decimal cfg.memory ++ codes "M")
    ∷ codes "-object"
    ∷ (codes "memory-backend-memfd,id=mem,size=" ++ decimal cfg.memory ++ codes "M,share=on")
    ∷ codes "-numa"
    ∷ codes "node,memdev=mem"
    ∷ codes "-smp"
    ∷ decimal cfg.cpus
    ∷ codes "-kernel"
    ∷ cfg.kernel_path
    ∷ codes "-initrd"
    ∷ cfg.initrd_path
    ∷ codes "-append"
    ∷ build_kernel_cmdline cfg
    ∷ codes "-nodefaults"
    ∷ codes "-no-user-config"
    ∷ codes "-nographic"
    ∷ (console_args cfg.console_socket cfg.console_log
        ++ (codes "-drive"
            ∷ (codes "id=root,file=" ++ cfg.rootfs_path ++ codes ",format=qcow2,if=none")
            ∷ codes "-device"
            ∷ codes "virtio-blk-pci,drive=root"
            ∷ codes "-netdev"
            ∷ (codes "stream,id=net0,addr.type=unix,addr.path=" ++ cfg.passt_socket)
            ∷ codes "-device"
            ∷ codes "virtio-net-pci,netdev=net0"
            ∷ [])
        ++ virtiofs_args cfg)
