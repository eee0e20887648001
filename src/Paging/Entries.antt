-- ===== src/Paging/Entries.antt =====
-- What an entry that mask_entry makes says of the address and the flags that went into it.
use gloxor.Base.{ℕ, ◌*◌, ◌/◌, ◌%◌, ◌≡◌, refl, ap, true, false, bit_or, arith}
use gloxor.Base.BitOr.{bit_or-div, bit_or-odd, bit_or-disjoint, bit_or-zero}
use gloxor.Paging.{
  get_physical, mask_entry, paddr, present, granul, vmem_mask, PagePrivileges, PageCaching,
  caching_value, privileges_value,
}

-- Flags that leave the bits of the address alone.
abbrev pub IsFlags : ℕ → Type 0
IsFlags mask = mask / 4096 % 1099511627776 ≡ 0

pub mask_entry-paddr : (a mask : ℕ) → IsFlags mask → paddr (mask_entry a mask) ≡ get_physical a
unfolding mask_entry paddr get_physical
mask_entry-paddr a mask h =
    let f = a / 4096 % 1099511627776 in
    let high = mask / 4096 / 1099511627776 in
    let field : f * 4096 / 4096 ≡ f = omega arith in
    let rest : mask / 4096 ≡ 1099511627776 * high = omega arith in
    let parts = bit_or-div 12 (f * 4096) mask in
    let apart = bit_or-disjoint 40 f high (omega arith) in
    omega (
      arith,
      parts,
      apart,
      ap (λ (m : ℕ). bit_or f m) rest,
      ap (λ (m : ℕ). bit_or m (mask / 4096)) field,
    )

pub mask_entry-present : (a mask : ℕ) → present (mask_entry a mask) ≡ present mask
unfolding present mask_entry get_physical
mask_entry-present a mask =
    let f = a / 4096 % 1099511627776 in
    let low : bit_or (f * 4096) mask % 2 ≡ mask % 2 = omega (arith, bit_or-odd (f * 4096) mask) in
    rw low refl

pub mask_entry-granul : (a mask : ℕ) → granul (mask_entry a mask) ≡ granul mask
unfolding granul mask_entry get_physical
mask_entry-granul a mask =
    let f = a / 4096 % 1099511627776 in
    let parts = bit_or-div 7 (f * 4096) mask in
    let bit : bit_or (f * 4096) mask / 128 % 2 ≡ mask / 128 % 2 =
      omega (arith, parts, bit_or-odd (f * 4096 / 128) (mask / 128)) in
    rw bit refl

-- The flags of a huge page: those of the mask, and `granul`.
pub granul_mask :
    (mask : ℕ)
    → IsFlags mask
    → IsFlags (bit_or mask 128)
      × (present (bit_or mask 128) ≡ present mask)
      × (granul (bit_or mask 128) ≡ true)
unfolding present granul
granul_mask mask h =
    let flags : bit_or mask 128 / 4096 ≡ mask / 4096 =
      omega (arith, bit_or-div 12 mask 128, bit_or-zero (mask / 4096)) in
    let low : bit_or mask 128 % 2 ≡ mask % 2 = omega (arith, bit_or-odd mask 128) in
    let bit : bit_or mask 128 / 128 % 2 ≡ 1 =
      omega (arith, bit_or-div 7 mask 128, bit_or-odd (mask / 128) 1) in
    (omega arith, (rw low refl), (rw bit refl))

-- What VSpace hands to map has the flag `present` just if the number of the caching is odd.
pub present-vmem_mask :
    (pv : PagePrivileges) (cm : PageCaching)
    → caching_value cm % 2 ≡ 0
    → present (vmem_mask pv cm) ≡ false
unfolding present vmem_mask privileges_value
present-vmem_mask PagePrivileges.read_only cm h =
    ground (arith, bit_or-odd 9223372036854775808 (caching_value cm))
present-vmem_mask PagePrivileges.write_only cm h =
    ground (arith, bit_or-odd 9223372036854775810 (caching_value cm))
present-vmem_mask PagePrivileges.exec_only cm h = ground (arith, bit_or-odd 0 (caching_value cm))
present-vmem_mask PagePrivileges.all cm h = ground (arith, bit_or-odd 2 (caching_value cm))
