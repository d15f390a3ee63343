-- ===== src/VmSlots/Rows.antt =====
-- The rows that internal/vm/globalstate.go writes, with the address and the ports of their slots, and
-- the statements that keep them so.
use homura.Bytes.{Bytes}
use homura.Decimal.{decimal-injective}
use homura.Prelude.{
  ℕ, ◌+◌, ◌≡◌, ◌≤◌, refl, sym, ap, ◌∙◌, Bool, drop, Option, none, some, ◌==◌, Bool-cases, inl, inr,
  some-ne-none,
}
use homura.VmSlots.Db.{VmSlot, Statement, remove, set_qemu, set_console, Table, effect, change}
use homura.VmSlots.Stale.{live}
use homura.VmSlots.{slot_ip, slot_port, max_vm_slots}

-- The row of slot n.
pub record IsRow (n : ℕ) (r : VmSlot) : Type 0 where
  pub first : 1 ≤ n
  pub last : n ≤ max_vm_slots
  pub number : r.slot_number ≡ n
  pub address : r.ip_address ≡ slot_ip n
  pub start : r.port_start ≡ slot_port n
  pub end : r.port_end ≡ slot_port n + 9

abbrev pub IsPlaced : Table → Type 0
IsPlaced t = (n : ℕ) (r : VmSlot) → t n ≡ some r → IsRow n r

pub some-eq-some : {r r' : VmSlot} → some r ≡ some r' → r ≡ r'
some-eq-some e = cc

live-some : (alive : ℕ → Bool) (o : Option VmSlot) (r : VmSlot) → live alive o ≡ some r → o ≡ some r
live-some alive none r h = h
live-some alive (some r') r h = elim (Bool-cases (alive r'.vm_pid)) [
  | inl up ↦ rw up at h
  | inr down ↦ absurd (some-ne-none r (sym (rw down at h)))
]

pub IsPlaced-live : (alive : ℕ → Bool) (t : Table) → IsPlaced t → IsPlaced (λ n. live alive (t n))
IsPlaced-live alive t placed n r e = placed n r (live-some alive (t n) r e)

pub IsPlaced-eq : (t t' : Table) → ((n : ℕ) → t' n ≡ t n) → IsPlaced t → IsPlaced t'
IsPlaced-eq t t' same placed n r e = placed n r (sym (same n) ∙ e)

-- A statement on one row that keeps what IsRow speaks of.
abbrev pub KeepsPlace : Statement → Type 0
KeepsPlace st = (t : Table) → IsPlaced t → IsPlaced (effect st t)

pub IsPlaced-remove : (k : ℕ) → KeepsPlace (remove k)
unfolding effect
IsPlaced-remove k t placed n r e = elim (Bool-cases (k == n)) [
  | inl same ↦ absurd (some-ne-none r (sym (rw same at e)))
  | inr other ↦ placed n r (rw other at e)
]

pub IsRow-copy :
    (n : ℕ) (r r' : VmSlot)
    → r'.slot_number ≡ r.slot_number
    → r'.ip_address ≡ r.ip_address
    → r'.port_start ≡ r.port_start
    → r'.port_end ≡ r.port_end
    → IsRow n r
    → IsRow n r'
IsRow-copy n r r' a b c d h = record {
  first = h.first;
  last = h.last;
  number = a ∙ h.number;
  address = b ∙ h.address;
  start = c ∙ h.start;
  end = d ∙ h.end;
}

IsPlaced-change :
    (f : VmSlot → VmSlot) (n : ℕ) (o : Option VmSlot) (r : VmSlot)
    → ((r' : VmSlot) → IsRow n r' → IsRow n (f r'))
    → ((r' : VmSlot) → o ≡ some r' → IsRow n r')
    → change f o ≡ some r
    → IsRow n r
IsPlaced-change f n none r keeps placed e = absurd (some-ne-none r (sym e))
IsPlaced-change f n (some r') r keeps placed e = rw (← (some-eq-some e)) (keeps r' (placed r' refl))

pub IsPlaced-set_qemu : (k pid : ℕ) → KeepsPlace (set_qemu k pid)
unfolding effect
IsPlaced-set_qemu k pid t placed n r e = elim (Bool-cases (k == n)) [
  | inl same ↦
      IsPlaced-change (λ x. record x { qemu_pid = pid }) n (t n) r
        (λ x. IsRow-copy n x _ refl refl refl refl) (placed n) (rw same at e)
  | inr other ↦ placed n r (rw other at e)
]

pub IsPlaced-set_console : (k : ℕ) (socket log : Bytes) → KeepsPlace (set_console k socket log)
unfolding effect
IsPlaced-set_console k socket log t placed n r e = elim (Bool-cases (k == n)) [
  | inl same ↦
      IsPlaced-change (λ x. record x { console_socket = socket; console_log = log }) n (t n) r
        (λ x. IsRow-copy n x _ refl refl refl refl) (placed n) (rw same at e)
  | inr other ↦ placed n r (rw other at e)
]

-- Two slots with one address are one slot.
pub slot_ip-injective : (m n : ℕ) → slot_ip m ≡ slot_ip n → m ≡ n
unfolding slot_ip
slot_ip-injective m n e = decimal-injective m n (ap (drop 8) e)
