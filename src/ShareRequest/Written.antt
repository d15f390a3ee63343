-- ===== src/ShareRequest/Written.antt =====
-- The words that the host writes to the kernel's command line.
use homura.Bytes.{Bytes, codes}
use homura.Decimal.{decimal}
use homura.Prelude.{
  ℕ, ◌≡◌, refl, sym, ap, ◌∙◌, Bool, true, false, ◌&&◌, List, [], ◌∷◌, ◌++◌, append_assoc,
  append-nil,
}
use homura.ShareRequest.Words.{
  spaceless, are_words, spaced, spaced-append, are_words-append, fields-spaced, decimal-word,
}
use homura.ShareRequest.{fields}
use homura.Vm.Qemu.{QemuConfig, signed_decimal, unless_empty, share_params, build_kernel_cmdline}

unfoldable pub virtiofs_words : Bytes → Bytes → List Bytes
virtiofs_words token port =
    (codes "virtiofs.token=" ++ token) ∷ (codes "virtiofs.port=" ++ port) ∷ []

unfoldable pub ninep_words : Bytes → Bytes → Bytes → List Bytes
ninep_words token port listen =
    (codes "p9.token=" ++ token)
    ∷ (codes "p9.port=" ++ port)
    ∷ (codes "p9.listenport=" ++ listen)
    ∷ []

unfoldable pub home_words : Bytes → List Bytes
home_words [] = []
home_words (c ∷ home) = (codes "host.home=" ++ c ∷ home) ∷ []

unfoldable pub host_words : QemuConfig → Bytes → List Bytes
host_words cfg [] = []
host_words cfg (c ∷ ip) =
    (codes "vm.hostip=" ++ c ∷ ip)
    ∷ (codes "vm.sshport=" ++ decimal cfg.ssh_port)
    ∷ (codes "vm.portstart=" ++ decimal cfg.port_start)
    ∷ (codes "vm.portend=" ++ decimal cfg.port_end)
    ∷ (codes "vm.slot=" ++ decimal cfg.slot_number)
    ∷ []

boot_words : List Bytes
boot_words =
    codes "earlyprintk=ttyS0"
    ∷ codes "console=ttyS0"
    ∷ codes "root=/dev/vda"
    ∷ codes "rootfstype=ext4"
    ∷ codes "rw"
    ∷ []

-- The words of the command line, those of the share mode in between.
unfoldable pub cmdline_words : QemuConfig → List Bytes → List Bytes
unfolding boot_words home_words host_words
cmdline_words cfg share =
    boot_words ++ (share ++ (home_words cfg.host_home_dir ++ host_words cfg cfg.host_ip))

pub virtiofs-spaced :
    (c : ℕ) (token port : Bytes)
    → codes " virtiofs.token=" ++ (c ∷ token) ++ codes " virtiofs.port=" ++ port
      ≡ spaced (virtiofs_words (c ∷ token) port)
unfolding spaced virtiofs_words
virtiofs-spaced c token port = simp (append_assoc, append-nil)

pub ninep-spaced :
    (c : ℕ) (token port listen : Bytes)
    → codes " p9.token="
        ++ (c ∷ token)
        ++ codes " p9.port="
        ++ port
        ++ codes " p9.listenport="
        ++ listen
      ≡ spaced (ninep_words (c ∷ token) port listen)
unfolding spaced ninep_words
ninep-spaced c token port listen = simp (append_assoc, append-nil)

home-spaced :
    (home : Bytes) → unless_empty home (codes " host.home=" ++ home) ≡ spaced (home_words home)
unfolding spaced home_words
home-spaced [] = refl
home-spaced (c ∷ home) = simp append-nil

host-spaced :
    (cfg : QemuConfig) (ip : Bytes)
    → unless_empty ip (
        codes " vm.hostip="
        ++ ip
        ++ codes " vm.sshport="
        ++ decimal cfg.ssh_port
        ++ codes " vm.portstart="
        ++ decimal cfg.port_start
        ++ codes " vm.portend="
        ++ decimal cfg.port_end
        ++ codes " vm.slot="
        ++ decimal cfg.slot_number)
      ≡ spaced (host_words cfg ip)
unfolding spaced host_words
host-spaced cfg [] = refl
host-spaced cfg (c ∷ ip) = simp (append_assoc, append-nil)

four_parts :
    (boot share home host : Bytes)
    → boot ++ share ++ home ++ host ≡ boot ++ (share ++ (home ++ host))
four_parts boot share home host = simp append_assoc

boot : Bytes
boot = codes "earlyprintk=ttyS0 console=ttyS0 root=/dev/vda rootfstype=ext4 rw"

spaced-boot : (words : List Bytes) → spaced (boot_words ++ words) ≡ (b' ' ∷ (boot ++ spaced words))
unfolding spaced boot_words boot
spaced-boot words = refl

join_parts :
    (share home host : List Bytes) (share' home' host' : Bytes)
    → share' ≡ spaced share
    → home' ≡ spaced home
    → host' ≡ spaced host
    → (b' ' ∷ (boot ++ share' ++ home' ++ host')) ≡ spaced (boot_words ++ (share ++ (home ++ host)))
join_parts share home host share' home' host' e1 e2 e3 =
    ap (λ s. b' ' ∷ s) (four_parts boot share' home' host')
    ∙ (rw (e1, e2, e3, ← spaced-append home host, ← spaced-append share (home ++ host))
        (sym (spaced-boot (share ++ (home ++ host)))))

cmdline-spaced :
    (cfg : QemuConfig) (share : List Bytes)
    → share_params cfg ≡ spaced share
    → (b' ' ∷ build_kernel_cmdline cfg) ≡ spaced (cmdline_words cfg share)
unfolding build_kernel_cmdline boot cmdline_words
cmdline-spaced cfg share e =
    join_parts share (home_words cfg.host_home_dir) (host_words cfg cfg.host_ip) (share_params cfg)
      _ _ e (home-spaced cfg.host_home_dir) (host-spaced cfg cfg.host_ip)

pub both : (a b : Bool) → a ≡ true → b ≡ true → (a && b) ≡ true
both a b e e' = rw (e, e')

decimal-spaceless : (n : ℕ) → spaceless (decimal n) ≡ true
decimal-spaceless n = let (d, s, e, clean) = decimal-word n in clean

pub signed-word :
    (x : Bool × ℕ)
    → (d : ℕ) × (s : Bytes) × (signed_decimal x ≡ d ∷ s) × (spaceless (signed_decimal x) ≡ true)
unfolding spaceless
signed-word (true, n) = (b'-', decimal n, refl, decimal-spaceless n)
signed-word (false, n) = decimal-word n

home-are_words : (home : Bytes) → spaceless home ≡ true → are_words (home_words home) ≡ true
unfolding are_words home_words
home-are_words [] h = refl
home-are_words (c ∷ home) h = both (spaceless (c ∷ home)) true h refl

host-are_words :
    (cfg : QemuConfig) (ip : Bytes) → spaceless ip ≡ true → are_words (host_words cfg ip) ≡ true
unfolding are_words host_words
host-are_words cfg [] h = refl
host-are_words cfg (c ∷ ip) h = both (spaceless (c ∷ ip)) _ h (
    both (spaceless (decimal cfg.ssh_port)) _ (decimal-spaceless cfg.ssh_port) (
      both (spaceless (decimal cfg.port_start)) _ (decimal-spaceless cfg.port_start) (
        both (spaceless (decimal cfg.port_end)) _ (decimal-spaceless cfg.port_end) (
          both (spaceless (decimal cfg.slot_number)) true (decimal-spaceless cfg.slot_number)
            refl))))

-- Neither the home directory nor the address has white space in it.
abbrev pub IsPlain : QemuConfig → Type 0
IsPlain cfg = (spaceless cfg.host_home_dir ≡ true) × (spaceless cfg.host_ip ≡ true)

blank : (s : Bytes) → fields s ≡ fields (b' ' ∷ s)
unfolding fields
blank s = refl

boot_ok : are_words boot_words ≡ true
unfolding are_words boot_words
boot_ok = refl

-- The fields of the command line, with the newline that the kernel adds.
pub cmdline-fields :
    (cfg : QemuConfig) (share : List Bytes)
    → IsPlain cfg
    → are_words share ≡ true
    → share_params cfg ≡ spaced share
    → fields (build_kernel_cmdline cfg ++ 10 ∷ []) ≡ cmdline_words cfg share
unfolding cmdline_words boot_words
cmdline-fields cfg share (home, ip) words e =
    blank (build_kernel_cmdline cfg ++ 10 ∷ [])
    ∙ (ap (λ s. fields (s ++ 10 ∷ [])) (cmdline-spaced cfg share e)
        ∙ fields-spaced (cmdline_words cfg share) 10 refl (
            are_words-append boot_words _ boot_ok (
              are_words-append share _ words (
                are_words-append (home_words cfg.host_home_dir) (host_words cfg cfg.host_ip)
                  (home-are_words cfg.host_home_dir home) (host-are_words cfg cfg.host_ip ip)))))
