-- ===== src/Vm/Passt.antt =====
-- The manager of passt in internal/vm/passt.go.
use homura.Bytes.{Bytes, codes}
use homura.Decimal.{decimal}
use homura.Paths.{join_paths}
use homura.Prelude.{ℕ, ◌+◌, Bool, false, List, [], ◌∷◌, ◌++◌}
use homura.VmSlots.Db.{VmSlot}

pub record PasstManager : Type 0 where
  pub socket_path : Bytes
  pub ip_address : Bytes
  pub port_start : ℕ
  pub port_end : ℕ
  pub started : Bool

-- NewPasstManager, which does not fail
unfoldable pub new_passt_manager : Bytes → VmSlot → PasstManager
unfolding join_paths
new_passt_manager state_dir slot = record {
  socket_path = join_paths state_dir (codes "passt.sock");
  ip_address = slot.ip_address;
  port_start = slot.port_start;
  port_end = slot.port_end;
  started = false;
}

-- The arguments of passt: the first port leads to the guest's SSH, the others to themselves.
unfoldable pub passt_args : PasstManager → List Bytes
unfolding decimal
passt_args pm =
    let range =
      pm.ip_address
      ++ codes "/"
      ++ decimal (pm.port_start + 1)
      ++ codes "-"
      ++ decimal pm.port_end in
    codes "-f"
    ∷ codes "-s"
    ∷ pm.socket_path
    ∷ codes "-t"
    ∷ (pm.ip_address ++ codes "/" ++ decimal pm.port_start ++ codes ":22")
    ∷ codes "-t"
    ∷ range
    ∷ codes "-u"
    ∷ range
    ∷ codes "-a"
    ∷ codes "10.0.2.15"
    ∷ codes "-n"
    ∷ codes "24"
    ∷ codes "-g"
    ∷ codes "10.0.2.2"
    ∷ []
