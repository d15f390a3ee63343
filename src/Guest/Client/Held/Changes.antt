-- ===== src/Guest/Client/Held/Changes.antt =====
-- The open handles after a file is registered, closed or left alone.
use homura.Guest.Client.Ops.{keeping, drop_handle, close_all}
use homura.Guest.Client.Held.{
  Falling, IsHeld, registered, without, registered-without, handed-without, without_fid-new,
  without-Falling, shut-without, Falling-mono, shut_each, shut_each-registered, callers,
  callers-registered, callers-handed, callers-handles, callers-Falling,
}
use homura.Guest.Client.Owned.Steps.{Keeps, shuts-Keeps}
use homura.Guest.Client.{
  Client, Result, ok, err, walked, close_file, shut, without_fid, register, get_file,
}
use homura.Prelude.{
  ℕ, ◌+◌, ◌^◌, ◌%◌, ◌≤◌, ◌<◌, ◌≡◌, refl, sym, ap, ◌∙◌, List, [], ◌∷◌, Option, none, some, arith,
}

pub Keeps-IsHeld :
    (n : ℕ) (out : List ℕ) (c c' : Client) → Keeps c c' → IsHeld n out c → IsHeld n out c'
Keeps-IsHeld n out c c' k h =
    let g : c.next_handle ≤ c'.next_handle = k.grows in
    let b : c.next_fid ≤ n = h.bounded in
    record {
      held = h.held;
      falls =
          Falling-mono c.next_fid c.next_handle c'.next_fid c'.next_handle h.held
            (rw k.same_fid (omega arith)) g h.falls;
      opened = k.same_opened ∙ h.opened;
      table = k.same_files ∙ h.table;
      handed_out = h.handed_out;
      bounded = rw k.same_fid b;
    }

pub weaken : (n : ℕ) (out : List ℕ) (c : Client) → IsHeld n out c → IsHeld (n + 1) out c
weaken n out c h =
    let b : c.next_fid ≤ n = h.bounded in
    record {
      held = h.held;
      falls = h.falls;
      opened = h.opened;
      table = h.table;
      handed_out = h.handed_out;
      bounded = omega arith;
    }

register-IsHeld :
    (n : ℕ) (out : List ℕ) (c c' : Client)
    → IsHeld n out c
    → n + 1 < 2 ^ 32
    → Keeps (walked c) c'
    → IsHeld (n + 1) out (register c.next_handle c')
unfolding register
register-IsHeld n out c c' h small k =
    let g : c.next_handle + 1 ≤ c'.next_handle = k.grows in
    let b : c.next_fid ≤ n = h.bounded in
    let wraps : (c'.next_fid + 1) % 2 ^ 32 ≡ c.next_fid + 1 = rw k.same_fid (omega arith) in
    let same : without_fid c'.next_fid c'.files ≡ registered h.held =
      rw (k.same_fid, k.same_files, h.table)
        (without_fid-new c.next_fid c.next_handle c.next_fid h.held (omega arith) h.falls) in
    let below : c.next_fid < c.next_fid + 1 = omega arith in
    let falls : Falling (c.next_fid + 1) c'.next_handle
        ((some c.next_fid, c.next_handle) ∷ h.held) =
      (below, omega arith, h.falls) in
    record {
      held = (some c.next_fid, c.next_handle) ∷ h.held;
      falls = rw wraps falls;
      opened = k.same_opened ∙ ap (λ x. c.next_handle ∷ x) h.opened;
      table = rw (same, k.same_fid);
      handed_out = h.handed_out;
      bounded = rw wraps (omega arith);
    }

pub keeping-IsHeld :
    {A : Type 0} (n : ℕ) (out : List ℕ) (c : Client) (r : Result A × Client)
    → IsHeld n out c
    → n + 1 < 2 ^ 32
    → Keeps (walked c) r.1
    → IsHeld (n + 1) out (keeping c.next_handle r).1
unfolding close_file
keeping-IsHeld n out c (ok a, c') h small k = register-IsHeld n out c c' h small k
keeping-IsHeld n out c (err e, c') h small k =
    weaken n out _ (Keeps-IsHeld n out c _ (shuts-Keeps c c' k) h)

pub drop_handle-IsHeld :
    (n fid : ℕ) (out : List ℕ) (c : Client) (found : Option ℕ)
    → IsHeld n out c
    → get_file fid c.files ≡ found
    → IsHeld n out (drop_handle fid found c)
unfolding drop_handle close_file
drop_handle-IsHeld n fid out c none h e = h
drop_handle-IsHeld n fid out c (some k) h e = record {
  held = without fid h.held;
  falls = without-Falling c.next_fid c.next_handle fid h.held h.falls;
  opened =
      ap (shut k) h.opened
      ∙ shut-without c.next_fid c.next_handle fid k h.held h.falls
          (ap (get_file fid) (sym h.table) ∙ e);
  table = ap (without_fid fid) h.table ∙ sym (registered-without fid h.held);
  handed_out = handed-without fid h.held ∙ h.handed_out;
  bounded = h.bounded;
}

-- Close leaves the rest of the client alone.
record Closes (files : List (ℕ × ℕ)) (c c' : Client) : Type 0 where
  no_files : c'.files ≡ []
  same_fid : c'.next_fid ≡ c.next_fid
  same_handle : c'.next_handle ≡ c.next_handle
  shuts : c'.opened ≡ shut_each files c.opened

close_all-Closes : (files : List (ℕ × ℕ)) (c : Client) → Closes files c (close_all files c)
unfolding close_all close_file shut_each
close_all-Closes [] c = record {
  no_files = refl;
  same_fid = refl;
  same_handle = refl;
  shuts = refl;
}
close_all-Closes ((f, h) ∷ files) c =
    let rest = close_all-Closes files (close_file h c) in
    record {
      no_files = rest.no_files;
      same_fid = rest.same_fid;
      same_handle = rest.same_handle;
      shuts = rest.shuts;
    }

pub close_all-IsHeld :
    (n : ℕ) (out : List ℕ) (c : Client) → IsHeld n out c → IsHeld n out (close_all c.files c)
close_all-IsHeld n out c h =
    let done = close_all-Closes c.files c in
    let b : c.next_fid ≤ n = h.bounded in
    record {
      held = callers h.held;
      falls =
          rw (done.same_fid, done.same_handle)
            (callers-Falling c.next_fid c.next_handle h.held h.falls);
      opened =
          done.shuts
          ∙ (ap (λ files. shut_each files c.opened) h.table
              ∙ (ap (shut_each (registered h.held)) h.opened
                  ∙ (shut_each-registered c.next_fid c.next_handle h.held h.falls
                      ∙ sym (callers-handles h.held))));
      table = done.no_files ∙ sym (callers-registered h.held);
      handed_out = callers-handed h.held ∙ h.handed_out;
      bounded = rw done.same_fid b;
    }
