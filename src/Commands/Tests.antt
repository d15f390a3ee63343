-- ===== src/Commands/Tests.antt =====
-- The arguments of `homura vm run`, the directory it finds, and a shell as POSIX has it.
use homura.Bytes.{Bytes, bytes_dec, codes}
use homura.Commands.Quoted.{
  Token, word, and_if, Place, between, in_word, in_quotes, IsPosix, remote_tokens,
  build_remote_cmd-tokens,
}
use homura.Commands.Run.{
  single_quote, shell_quote, build_remote_cmd, after_separator, branch_of, split_run_args,
  escape_quotes, join_words,
}
use homura.Commands.Target.{Site, Vms, Ssh, stored, no_such_vm, vm_run}
use homura.Commands.Table.{vms_of, target_of, vm_run-placed}
use homura.Commands.Where.{Runs}
use homura.Daemon.Start.{parse_share_mode}
use homura.Git.{directory, starts_with}
use homura.Outcome.{ok, err}
use homura.Paths.{clean, join_paths}
use homura.Prelude.{
  ℕ, ◌≡◌, ◌≢◌, ◌≤◌, refl, ap, Bool, true, false, none, some, List, [], ◌∷◌, ◌++◌, ◌==◌,
  if◌then◌else◌, arith,
}
use homura.VmSlots.Lookup.{find_vm_by_slot, find_vms_by_work_dir}
use homura.VmSlots.Memory.{Memory, memory_db, collect}
use homura.VmSlots.{World, new_slot}
use homura.Vm.Share.{atoi}

program : Unit {0}
unfolding vm_run build_remote_cmd shell_quote escape_quotes join_words split_run_args
    after_separator branch_of bytes_dec parse_share_mode clean join_paths starts_with atoi
program = tt

quoted : shell_quote (codes "it's") ≡ codes "'it'\\''s'"
unfolding program
quoted = refl

-- The branch in front of the separator, and a command without one.
split_args :
    (split_run_args
        (codes "feat" ∷ codes "ls" ∷ [])
        (codes "vm" ∷ codes "run" ∷ codes "feat" ∷ codes "--" ∷ codes "ls" ∷ [])
      ≡ (codes "feat", codes "ls" ∷ []))
    × (split_run_args (codes "ls" ∷ []) (codes "vm" ∷ codes "run" ∷ codes "ls" ∷ [])
        ≡ ([], codes "ls" ∷ []))
unfolding program
split_args = (refl, refl)

data Kind : Type 0 where
  quote blank ampersand escape other : Kind

kind : ℕ → Kind
kind c =
    if c == 39
    then quote
    else if c == 32
    then blank
    else if c == 38
    then ampersand
    else if c == 92
    then escape
    else other

-- The places, that behind a backslash, and those behind the characters of `&&`.
data State : Type 0 where
  at : Place → State
  escaped : Bytes → State
  behind_first behind_second : State

from_blank : Kind → ℕ → List Token × State
from_blank quote c = ([], at (in_quotes []))
from_blank blank c = ([], at between)
from_blank ampersand c = (and_if ∷ [], behind_first)
from_blank escape c = ([], escaped [])
from_blank other c = ([], at (in_word (c ∷ [])))

from_word : Kind → Bytes → ℕ → List Token × State
from_word quote w c = ([], at (in_quotes w))
from_word blank w c = (word w ∷ [], at between)
from_word ampersand w c = (word w ∷ and_if ∷ [], behind_first)
from_word escape w c = ([], escaped w)
from_word other w c = ([], at (in_word (w ++ c ∷ [])))

from_quotes : Bool → Bytes → ℕ → List Token × State
from_quotes true w c = ([], at (in_word w))
from_quotes false w c = ([], at (in_quotes (w ++ c ∷ [])))

step : State → ℕ → List Token × State
unfolding kind from_blank from_word from_quotes
step (at between) c = from_blank (kind c) c
step (at (in_word w)) c = from_word (kind c) w c
step (at (in_quotes w)) c = from_quotes (c == single_quote) w c
step (escaped w) c = ([], at (in_word (w ++ c ∷ [])))
step behind_first c = ([], behind_second)
step behind_second c = ([], at between)

last_of : State → List Token
last_of (at (in_word w)) = word w ∷ []
last_of other_state = []

run : State → Bytes → List Token
unfolding step last_of
run st [] = last_of st
run st (c ∷ s) = let (tokens, st') = step st c in tokens ++ run st' s

-- A shell that splits as POSIX says, and as it likes in what is left open there.
sh : Place → Bytes → List Token
unfolding run
sh p s = run (at p) s

letter-kind : (c : ℕ) → 97 ≤ c → c ≤ 122 → kind c ≡ other
unfolding kind
letter-kind c low high = ground arith

not_quote : (c : ℕ) → c ≢ single_quote → (c == single_quote) ≡ false
not_quote c h = ground arith

sh-IsPosix : IsPosix sh
unfolding sh kind
sh-IsPosix = record {
  letter = λ c s low high.
      ap (λ k. (from_blank k c).0 ++ run (from_blank k c).1 s) (letter-kind c low high);
  next_letter = λ w c s low high.
      ap (λ k. (from_word k w c).0 ++ run (from_word k w c).1 s) (letter-kind c low high);
  opens = λ s. refl;
  reopens = λ w s. refl;
  literal =
      λ w c s h. ap (λ b. (from_quotes b w c).0 ++ run (from_quotes b w c).1 s) (not_quote c h);
  closes = λ w s. refl;
  escaped_quote = λ w s. refl;
  ends_word = λ w s. refl;
  skips_blank = λ s. refl;
  reads_and = λ s. refl;
  last_word = λ w. refl;
}

build_remote_cmd-tokens_example :
    sh between (build_remote_cmd (codes "/r") (codes "echo" ∷ codes "it's" ∷ []))
    ≡ remote_tokens (codes "/r") (codes "echo" ∷ codes "it's" ∷ [])
build_remote_cmd-tokens_example =
    build_remote_cmd-tokens sh sh-IsPosix (codes "/r") (codes "echo" ∷ codes "it's" ∷ [])

-- A repository at /r with the default branch "main", and a VM in the copy of that branch.
abbrev site : Site
site = record {
  cwd = some (codes "/r/src");
  here = false;
  stat = λ path. directory;
  top_level = λ path. some (codes "/r");
  query = λ path. stored (codes "main");
  state_dir_base = [];
}

-- The table with one VM, in slot 2, for a directory.
abbrev table : Bytes → World Memory
unfolding new_slot
table dir = record {
  db = record {
    rows = λ n.
        if n == 2
        then some (
            new_slot
              (record {
                socket_path = codes "/t/homura-vm-2/s";
                working_dir = dir;
                share_mode = [];
                ninep_pid = 41;
                ninep_socket = [];
                ninep_port = 0;
                virtiofs_pid = 0;
                virtiofs_socket = [];
                virtiofs_admin_port = 0;
                virtiofs_vm_port = 0;
                console_socket = [];
                console_log = [];
              })
              50 1 2)
        else none;
    saved = λ n. none;
  };
  removed = [];
}

abbrev vms : Bytes → Vms
unfolding table
vms dir =
    vms_of memory_db (λ pid. true) (table dir) true (λ p. some (codes "127.0.0.3", 10020))
      (λ ip port. true)

abbrev ls_at : Bytes → ℕ → Ssh
ls_at ip port = record {
  ip = ip;
  port = port;
  remote_cmd = codes "cd '/mnt/host/r/.homura/main' && 'ls'";
}

all_programs : Unit {0}
unfolding program vms table target_of find_vm_by_slot find_vms_by_work_dir collect
all_programs = tt

-- The VM of the default branch is taken where it runs, else a new one, or one by its slot.
chosen :
    (vm_run site
        (vms (codes "/r/.homura/main"))
        (codes "ls" ∷ [])
        (codes "--" ∷ codes "ls" ∷ [])
        (codes "9p")
      ≡ ok (ls_at (codes "127.0.0.2") 10010))
    × (vm_run site (vms (codes "/w")) (codes "ls" ∷ []) (codes "--" ∷ codes "ls" ∷ []) (codes "9p")
        ≡ ok (ls_at (codes "127.0.0.3") 10020))
    × (vm_run site
          (vms (codes "/w"))
          (codes "3" ∷ codes "ls" ∷ [])
          (codes "3" ∷ codes "--" ∷ codes "ls" ∷ [])
          (codes "9p")
        ≡ err no_such_vm)
unfolding all_programs
chosen = (refl, refl, refl)

-- The default branch, since no branch is in front of the separator.
vm_run-placed_example :
    Runs sh site
      (vms (codes "/r/.homura/main"))
      (ls_at (codes "127.0.0.2") 10010)
      []
      (codes "ls" ∷ [])
unfolding all_programs
vm_run-placed_example =
    vm_run-placed memory_db sh site (λ pid. true) (table (codes "/r/.homura/main")) true
      (λ p. some (codes "127.0.0.3", 10020)) (λ ip port. true) (codes "ls" ∷ [])
      (codes "--" ∷ codes "ls" ∷ []) (codes "9p") _ sh-IsPosix refl
