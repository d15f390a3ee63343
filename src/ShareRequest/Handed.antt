-- ===== src/ShareRequest/Handed.antt =====
-- The command of the guest finds what the host wrote to the kernel's command line.
use std.Path.{fun_ext}
use homura.Bytes.{Bytes, codes}
use homura.Decimal.{decimal}
use homura.Git.{trim_prefix}
use homura.Paths.{slash}
use homura.Prelude.{
  ℕ, ◌≡◌, refl, sym, ap, ◌∙◌, Bool, true, false, some, List, [], ◌∷◌, ◌++◌, if◌then◌else◌, drop,
  length, Bool-cases, inl, inr, ◌≢◌, ◌⊎◌, subst,
}
use homura.ShareRequest.Written.{
  virtiofs_words, ninep_words, home_words, host_words, cmdline_words, virtiofs-spaced, ninep-spaced,
  both, signed-word, IsPlain, cmdline-fields,
}
use homura.ShareRequest.Words.{
  spaceless, are_words, spaced, decimal-word, prefixed, starts_with-prefixed,
}
use homura.ShareRequest.{
  Reading, readable, KernelParams, Params, no_params, take_part, take_parts, choose,
  read_kernel_params, main, asks, strip_mount, mount_prefix, is_read_only, ask_for, ask_with,
  not_absolute,
}
use homura.Vm.Qemu.{QemuConfig, signed_decimal, is_virtiofs, share_params, build_kernel_cmdline}

-- What the host hands over: the mode, the token and the port of the daemon in use.
abbrev pub handed_over : QemuConfig → Params
handed_over cfg =
    if is_virtiofs cfg.share_mode
    then record {
      share_mode = codes "virtiofs";
      token = cfg.virtiofs_vm_token;
      port = decimal cfg.virtiofs_vm_port;
    }
    else record {
      share_mode = codes "9p";
      token = cfg.ninep_token;
      port = signed_decimal cfg.ninep_control_port;
    }

trimmed : (Bytes → Bytes → Bool) → Bytes → Bytes → Bytes
trimmed starts part prefix = if starts prefix part then drop (length prefix) part else part

-- A round of the loop, by the test for a prefix.
part_by : (Bytes → Bytes → Bool) → KernelParams → Bytes → KernelParams
unfolding trimmed
part_by starts p part =
    if starts (codes "virtiofs.token=") part
    then record p { virtiofs_token = trimmed starts part (codes "virtiofs.token=") }
    else if starts (codes "virtiofs.port=") part
    then record p { virtiofs_port = trimmed starts part (codes "virtiofs.port=") }
    else if starts (codes "p9.token=") part
    then record p { p9_token = trimmed starts part (codes "p9.token=") }
    else if starts (codes "p9.port=") part
    then record p { p9_port = trimmed starts part (codes "p9.port=") }
    else p

take_part-prefixed : (p : KernelParams) (part : Bytes) → take_part p part ≡ part_by prefixed p part
unfolding take_part part_by
take_part-prefixed p part =
    ap (λ f. part_by f p part) (fun_ext λ a. fun_ext λ b. starts_with-prefixed a b)

parts_by : KernelParams → List Bytes → KernelParams
unfolding part_by prefixed
parts_by p [] = p
parts_by p (part ∷ parts) = parts_by (part_by prefixed p part) parts

take_parts-parts_by :
    (p : KernelParams) (parts : List Bytes) → take_parts p parts ≡ parts_by p parts
unfolding take_parts parts_by
take_parts-parts_by p [] = refl
take_parts-parts_by p (part ∷ parts) =
    take_parts-parts_by (take_part p part) parts
    ∙ ap (λ q. parts_by q parts) (take_part-prefixed p part)

parts_by-end :
    (p : KernelParams) (cfg : QemuConfig) (home ip : Bytes)
    → parts_by p (home_words home ++ host_words cfg ip) ≡ p
unfolding parts_by home_words host_words
parts_by-end p cfg [] [] = refl
parts_by-end p cfg [] (d ∷ ip) = refl
parts_by-end p cfg (c ∷ home) [] = refl
parts_by-end p cfg (c ∷ home) (d ∷ ip) = refl

taken-virtiofs :
    (cfg : QemuConfig) (token port : Bytes)
    → take_parts no_params (cmdline_words cfg (virtiofs_words token port))
      ≡ record { virtiofs_token = token; virtiofs_port = port; p9_token = []; p9_port = [] }
unfolding parts_by cmdline_words virtiofs_words
taken-virtiofs cfg token port =
    take_parts-parts_by no_params (cmdline_words cfg (virtiofs_words token port))
    ∙ parts_by-end _ cfg cfg.host_home_dir cfg.host_ip

taken-ninep :
    (cfg : QemuConfig) (token port listen : Bytes)
    → take_parts no_params (cmdline_words cfg (ninep_words token port listen))
      ≡ record { virtiofs_token = []; virtiofs_port = []; p9_token = token; p9_port = port }
unfolding parts_by cmdline_words ninep_words
taken-ninep cfg token port listen =
    take_parts-parts_by no_params (cmdline_words cfg (ninep_words token port listen))
    ∙ parts_by-end _ cfg cfg.host_home_dir cfg.host_ip

abbrev pub token_of : QemuConfig → Bytes
token_of cfg = if is_virtiofs cfg.share_mode then cfg.virtiofs_vm_token else cfg.ninep_token

choose-virtiofs :
    (p : KernelParams) (c d : ℕ) (t s token port : Bytes)
    → token ≡ c ∷ t
    → port ≡ d ∷ s
    → choose p token port
      ≡ readable (record { share_mode = codes "virtiofs"; token = token; port = port })
unfolding choose
choose-virtiofs p c d t s token port e e' = rw (e, e')

choose-ninep :
    (c d : ℕ) (t s token port : Bytes)
    → token ≡ c ∷ t
    → port ≡ d ∷ s
    → choose
        (record { virtiofs_token = []; virtiofs_port = []; p9_token = token; p9_port = port })
        []
        []
      ≡ readable (record { share_mode = codes "9p"; token = token; port = port })
unfolding choose
choose-ninep c d t s token port e e' = rw (e, e')

virtiofs_params :
    (cfg : QemuConfig) (c : ℕ) (t : Bytes)
    → is_virtiofs cfg.share_mode ≡ true
    → cfg.virtiofs_vm_token ≡ c ∷ t
    → share_params cfg ≡ spaced (virtiofs_words (c ∷ t) (decimal cfg.virtiofs_vm_port))
unfolding share_params
virtiofs_params cfg c t is e = rw (is, e) (virtiofs-spaced c t (decimal cfg.virtiofs_vm_port))

ninep_params :
    (cfg : QemuConfig) (c : ℕ) (t : Bytes)
    → is_virtiofs cfg.share_mode ≡ false
    → cfg.ninep_token ≡ c ∷ t
    → share_params cfg
      ≡ spaced (
          ninep_words
            (c ∷ t)
            (signed_decimal cfg.ninep_control_port)
            (signed_decimal cfg.ninep_port))
unfolding share_params
ninep_params cfg c t is e =
    rw (is, e)
      (ninep-spaced c t (signed_decimal cfg.ninep_control_port) (signed_decimal cfg.ninep_port))

-- The parameters, from the words of the share mode.
read-words :
    (cfg : QemuConfig) (share : List Bytes) (p : KernelParams)
    → IsPlain cfg
    → are_words share ≡ true
    → share_params cfg ≡ spaced share
    → take_parts no_params (cmdline_words cfg share) ≡ p
    → read_kernel_params (some (build_kernel_cmdline cfg ++ 10 ∷ []))
      ≡ choose p p.virtiofs_token p.virtiofs_port
unfolding read_kernel_params
read-words cfg share p plain words e e' =
    ap (λ ws. chosen (take_parts no_params ws)) (cmdline-fields cfg share plain words e)
    ∙ ap chosen e'
  where
    chosen : KernelParams → Reading
    chosen q = choose q q.virtiofs_token q.virtiofs_port

read-virtiofs :
    (cfg : QemuConfig) (c : ℕ) (t : Bytes)
    → IsPlain cfg
    → is_virtiofs cfg.share_mode ≡ true
    → cfg.virtiofs_vm_token ≡ c ∷ t
    → spaceless (c ∷ t) ≡ true
    → read_kernel_params (some (build_kernel_cmdline cfg ++ 10 ∷ [])) ≡ readable (handed_over cfg)
unfolding are_words virtiofs_words
read-virtiofs cfg c t plain is e clean =
    let port = decimal cfg.virtiofs_vm_port in
    let (d, s, e', port_clean) = decimal-word cfg.virtiofs_vm_port in
    read-words cfg (virtiofs_words (c ∷ t) port) _ plain
      (both (spaceless (c ∷ t)) _ clean (both (spaceless port) true port_clean refl))
      (virtiofs_params cfg c t is e) (taken-virtiofs cfg (c ∷ t) port)
    ∙ (choose-virtiofs _ c d t s (c ∷ t) port refl e' ∙ rw (is, e))

read-ninep :
    (cfg : QemuConfig) (c : ℕ) (t : Bytes)
    → IsPlain cfg
    → is_virtiofs cfg.share_mode ≡ false
    → cfg.ninep_token ≡ c ∷ t
    → spaceless (c ∷ t) ≡ true
    → read_kernel_params (some (build_kernel_cmdline cfg ++ 10 ∷ [])) ≡ readable (handed_over cfg)
unfolding are_words ninep_words
read-ninep cfg c t plain is e clean =
    let port = signed_decimal cfg.ninep_control_port in
    let listen = signed_decimal cfg.ninep_port in
    let (d, s, e', port_clean) = signed-word cfg.ninep_control_port in
    let (_, _, _, listen_clean) = signed-word cfg.ninep_port in
    read-words cfg (ninep_words (c ∷ t) port listen) _ plain
      (both (spaceless (c ∷ t)) _ clean
        (both (spaceless port) _ port_clean (both (spaceless listen) true listen_clean refl)))
      (ninep_params cfg c t is e) (taken-ninep cfg (c ∷ t) port listen)
    ∙ (choose-ninep c d t s (c ∷ t) port refl e' ∙ rw (is, e))

-- A token that is not empty and has no white space in it.
abbrev pub IsToken : Bytes → Type 0
IsToken token = (token ≢ []) × (spaceless token ≡ true)

List-cases : (s : Bytes) → (s ≡ []) ⊎ ((c : ℕ) × (t : Bytes) × (s ≡ c ∷ t))
List-cases [] = inl refl
List-cases (c ∷ t) = inr (c, t, refl)

pub read_kernel_params-handed :
    (cfg : QemuConfig)
    → IsPlain cfg
    → IsToken (token_of cfg)
    → read_kernel_params (some (build_kernel_cmdline cfg ++ 10 ∷ [])) ≡ readable (handed_over cfg)
read_kernel_params-handed cfg plain (given, clean) = elim (List-cases (token_of cfg)) [
  | inl empty ↦ absurd (given empty)
  | inr (c, t, e) ↦
      let clean' = subst (λ s. spaceless s ≡ true) e clean in
      elim (Bool-cases (is_virtiofs cfg.share_mode)) [
        | inl is ↦ read-virtiofs cfg c t plain is (sym (of_mode true is) ∙ e) clean'
        | inr is ↦ read-ninep cfg c t plain is (sym (of_mode false is) ∙ e) clean'
      ]
]
  where
    of_mode :
        (b : Bool)
        → is_virtiofs cfg.share_mode ≡ b
        → token_of cfg ≡ (if b then cfg.virtiofs_vm_token else cfg.ninep_token)
    of_mode b is = ap (λ x. if x then cfg.virtiofs_vm_token else cfg.ninep_token) is

stripped : (path : Bytes) → strip_mount (mount_prefix ++ (slash ∷ path)) ≡ some (slash ∷ path)
unfolding strip_mount trim_prefix prefixed
stripped path = rw (
  starts_with-prefixed (codes "/mnt/host/") (mount_prefix ++ (slash ∷ path)),
  starts_with-prefixed mount_prefix (mount_prefix ++ (slash ∷ path)),
)

-- From the kernel command line that the host builds, with a newline behind it, the guest's
-- request command takes the share mode, the token and the port of the daemon that serves the VM,
-- where the token is not empty and the token, the home directory and the address have no white
-- space in them; and for a path under /mnt/host it asks for the path without that prefix, read-
-- only where the second argument is "ro".
pub main-asks :
    (cfg : QemuConfig) (path : Bytes) (args : List Bytes)
    → IsPlain cfg
    → IsToken (token_of cfg)
    → main ((mount_prefix ++ (slash ∷ path)) ∷ args) (some (build_kernel_cmdline cfg ++ 10 ∷ []))
      ≡ asks (slash ∷ path) (is_read_only args) (handed_over cfg)
unfolding main prefixed
main-asks cfg path args plain token =
    let cmdline = some (build_kernel_cmdline cfg ++ 10 ∷ []) in
    let whole = mount_prefix ++ (slash ∷ path) in
    ap (λ b. if b then ask_for args cmdline (strip_mount whole) else not_absolute)
      (starts_with-prefixed (codes "/") whole)
    ∙ (ap (ask_for args cmdline) (stripped path)
        ∙ ap (ask_with (slash ∷ path) (is_read_only args))
            (read_kernel_params-handed cfg plain token))
