-- ===== src/MmapRegistry/Bounds.antt =====
-- The bounds of reads and writes in a mapped region.
use homura.Bytes.{Bytes}
use homura.Buffers.{overwrite, length-overwrite, take-overwrite}
use homura.Outcome.{Outcome, ok, err, panic}
use homura.MmapRegistry.{
  MmapRegion, MmapRegistry, MmapError, out_of_bounds, region_at, range_end, write_to_mmap,
  read_from_mmap,
}
use homura.Prelude.Dict.{put, get-put_self}
use homura.Prelude.{
  ℕ, ◌+◌, ◌^◌, ◌≡◌, ◌≤◌, ◌<◌, ◌↔◌, refl, ap, true, ◌||◌, ◌∙◌, ℕ_discrete, dec_lt, inl, inr, ◌⊎◌,
  if◌then◌else◌, some, length, take, drop, arith, ltb,
}

-- A region of the registry whose bytes are all there, of a size that a Go slice can have.
pub record IsMapped (mr : MmapRegistry) (id : ℕ) (r : MmapRegion) : Type 0 where
  pub registered : region_at mr id ≡ some r
  pub all_there : length r.mmap_data ≡ r.size
  pub small : r.size < 2 ^ 63

range_end_small :
    (offset count : ℕ) → offset + count < 2 ^ 64 → range_end offset count ≡ offset + count
unfolding range_end
range_end_small offset count h = omega arith

range_end-cases :
    (offset count : ℕ)
    → offset < 2 ^ 64
    → count < 2 ^ 64
    → (offset + count < 2 ^ 64) × (range_end offset count ≡ offset + count)
      ⊎ (2 ^ 64 ≤ offset + count) × (range_end offset count + 2 ^ 64 ≡ offset + count)
unfolding range_end
range_end-cases offset count ho hc = elim (dec_lt (offset + count) (2 ^ 64)) [
  | yes small ↦ inl (small, omega arith)
  | no wraps ↦ inr (omega arith, omega arith)
]

-- What a read of a region comes to.
abbrev read_of : MmapRegion → ℕ → ℕ → Outcome MmapError Bytes
read_of r offset count =
    if ltb r.size (range_end offset count)
    then err out_of_bounds
    else if ltb (range_end offset count) offset || ltb (length r.mmap_data) (range_end offset count)
    then panic
    else ok (take count (drop offset r.mmap_data))

read_from_mmap-read_of :
    (mr : MmapRegistry) (id : ℕ) (r : MmapRegion) (offset count : ℕ)
    → region_at mr id ≡ some r
    → read_from_mmap mr id offset count ≡ read_of r offset count
unfolding read_from_mmap
read_from_mmap-read_of mr id r offset count h = rw (h, read_from_mmap)

read_of-inside :
    (r : MmapRegion) (offset count : ℕ)
    → length r.mmap_data ≡ r.size
    → r.size < 2 ^ 63
    → offset + count ≤ r.size
    → read_of r offset count ≡ ok (take count (drop offset r.mmap_data))
read_of-inside r offset count all small h =
    let end = range_end_small offset count (omega arith) in ground (arith, end)

read_of-panic :
    (r : MmapRegion) (offset count : ℕ)
    → length r.mmap_data ≡ r.size
    → r.size < 2 ^ 63
    → offset < 2 ^ 64
    → count < 2 ^ 64
    → (read_of r offset count ≡ panic)
      ↔ (2 ^ 64 ≤ offset + count) × (offset + count ≤ 2 ^ 64 + r.size)
read_of-panic r offset count all small ho hc = elim (range_end-cases offset count ho hc) [
  | inl (fits, end) ↦ ((λ h. absurd (ground arith)), (λ h. absurd (omega (arith, h.0))))
  | inr (wraps, end) ↦ ((λ h. (wraps, ground arith)), (λ h. ground (arith, h.1)))
]

-- The region after a write.
abbrev written : MmapRegion → ℕ → Bytes → ℕ → MmapRegion
written r offset content now = record r {
  mmap_data = overwrite offset r.mmap_data content;
  last_mod = now;
}

write_to_mmap-inside :
    (mr : MmapRegistry) (id : ℕ) (r : MmapRegion) (offset now : ℕ) (content : Bytes)
    → region_at mr id ≡ some r
    → length r.mmap_data ≡ r.size
    → r.size < 2 ^ 63
    → offset + length content ≤ r.size
    → write_to_mmap mr id offset content now true
      ≡ (record mr { regions = put ℕ_discrete mr.regions id (written r offset content now) }, ok tt)
unfolding write_to_mmap
write_to_mmap-inside mr id r offset now content s all small h =
    let end = range_end_small offset (length content) (omega arith) in ground (arith, end)

region_at-put :
    (mr : MmapRegistry) (id : ℕ) (r : MmapRegion)
    → region_at (record mr { regions = put ℕ_discrete mr.regions id r }) id ≡ some r
unfolding region_at
region_at-put mr id r = get-put_self ℕ_discrete mr.regions id r

module _ (mr : MmapRegistry) (id : ℕ) (r : MmapRegion) (m : IsMapped mr id r) where
  -- In a registered region whose bytes are all there, of a size below 2^63, ReadFromMmap at a
  -- 64-bit offset and length panics just where their sum passes 2^64 and what it wraps around to
  -- is at most the size.
  pub read_from_mmap-panic :
      (offset count : ℕ)
      → offset < 2 ^ 64
      → count < 2 ^ 64
      → (read_from_mmap mr id offset count ≡ panic)
        ↔ (2 ^ 64 ≤ offset + count) × (offset + count ≤ 2 ^ 64 + r.size)
  read_from_mmap-panic offset count ho hc =
      rw (read_from_mmap-read_of mr id r offset count m.registered)
        (read_of-panic r offset count m.all_there m.small ho hc)

  -- In a registered region whose bytes are all there, of a size below 2^63, a write within the
  -- size succeeds where the host syncs it, and a read of the same range returns the bytes
  -- written.
  pub read_from_mmap-write_to_mmap :
      (offset now : ℕ) (content : Bytes)
      → offset + length content ≤ r.size
      → ((write_to_mmap mr id offset content now true).1 ≡ ok tt)
        × (read_from_mmap (write_to_mmap mr id offset content now true).0 id offset (length content)
            ≡ ok content)
  read_from_mmap-write_to_mmap offset now content h =
      rw (write_to_mmap-inside mr id r offset now content m.registered m.all_there m.small h) (
        refl,
        read_from_mmap-read_of _ id (written r offset content now) offset (length content)
              (region_at-put mr id (written r offset content now))
            ∙ (read_of-inside (written r offset content now) offset (length content)
                  (length-overwrite offset r.mmap_data content ∙ m.all_there) m.small h
                ∙ ap ok (take-overwrite offset r.mmap_data content (omega (arith, m.all_there)))),
      )
