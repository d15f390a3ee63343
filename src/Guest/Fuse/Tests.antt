-- ===== src/Guest/Fuse/Tests.antt =====
-- Runs of the FUSE server of the guest, and the theorems at them.
use homura.Bytes.{codes}
use homura.Guest.AttrCache.{get_cached, expire, put_cached, invalidate}
use homura.Guest.Client.Listing.{child_path}
use homura.Guest.Client.Names.{parse_path, parts, byte_string, trim_slash}
use homura.Guest.Client.Ops.{
  no_change, forgetting, change, chown, utimens, truncate, chmod, caching, fetch_attr, get_attrs,
}
use homura.Guest.Client.Owned.{IsOwned}
use homura.Guest.Client.{Remote, new_client, close_file, shut, call, with_walked, and_then, pure}
use homura.Guest.Fuse.Changes.{changed}
use homura.Guest.Fuse.Released.{Balanced, opens-Balanced}
use homura.Guest.Fuse.Setattr.{requested, set_attr_node-requested}
use homura.Guest.Fuse.{Modes, SetAttrIn}
use homura.Guest.Fuse.Nodes.{
  attr_out, mode_to_file_mode, set_times, set_owners, set_mode, set_size, set_attr_node, open_node,
  create_node,
}
use homura.Prelude.Dict.{get, delete}
use homura.Prelude.{◌≡◌, ◌↔◌, refl, true, false, [], some, arith}

program : Unit {0}
unfolding parse_path parts byte_string trim_slash child_path forgetting change chown utimens
    truncate chmod caching fetch_attr get_attrs get_cached expire put_cached invalidate close_file
    shut call with_walked and_then pure attr_out mode_to_file_mode set_times set_owners set_mode
    set_size set_attr_node get delete
program = tt

abbrev remote : Remote
remote = record {
  accepts = λ calls. true;
  qid = λ calls. record { type = record { dir = false; symlink = false }; path = 1; version = 0 };
  attr = λ calls. record {
    mode = 0o644;
    uid = 5;
    gid = 6;
    nlink = 1;
    rdev = 0;
    size = 10;
    block_size = 4096;
    blocks = 8;
    atime = (5, 0);
    mtime = (6, 0);
    ctime = (6, 0);
  };
  entries = λ calls. [];
  content = λ calls. [];
  written = λ calls. 0;
  stat = λ calls. record {
    type = 1;
    block_size = 4096;
    blocks = 9;
    blocks_free = 8;
    blocks_available = 7;
    files = 6;
    files_free = 5;
    name_length = 255;
  };
  now = λ calls. 0;
  permissions = λ mode. mode;
}

abbrev lib : Modes
lib = record { is_dir = λ mode. false; is_symlink = λ mode. false }

-- A change of the user alone; the field of the group is zero.
abbrev to_user : SetAttrIn
to_user = record {
  has_size = false;
  has_mode = false;
  has_uid = true;
  has_gid = false;
  has_atime = false;
  has_mtime = false;
  size = 0;
  mode = 0;
  uid = 7;
  gid = 0;
  atime = (0, 0);
  mtime = (0, 0);
}

-- The group is changed to that of root.
group_of_root :
    changed (set_attr_node remote lib (codes "/a") to_user new_client).1.calls
    ≡ record no_change { uid = some 7; gid = some 0 }
unfolding program
group_of_root = refl

set_attr_node-requested_example :
    (changed (set_attr_node remote lib (codes "/a") to_user new_client).1.calls
      ≡ requested remote to_user)
    ↔ ((to_user.has_uid ≡ to_user.has_gid) × (to_user.has_atime ≡ to_user.has_mtime))
set_attr_node-requested_example =
    set_attr_node-requested remote (λ calls. refl) lib (codes "/a") to_user new_client refl

client-IsOwned : IsOwned 1 new_client
client-IsOwned = record { falls = tt; handles = refl; bounded = omega arith }

opens-Balanced_example :
    Balanced new_client (open_node remote lib (codes "/a") 0 new_client)
    × Balanced new_client (create_node remote lib (codes "/a") (codes "b") 0 420 new_client)
opens-Balanced_example =
    opens-Balanced remote lib 1 (codes "/a") (codes "b") 0 420 new_client client-IsOwned
