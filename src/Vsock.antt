-- ===== src/Vsock.antt =====
-- lib/vsock/vsock.go: the allocator of vsock context ids. The bitmap of package roaring enters as
-- the interface `Bitmap`. A `uint32` is a number below `u32_mod`, and its arithmetic wraps.
-- A method runs under the allocator's mutex, so it is one step from state to state.
pub mod Roaring
pub mod Usage
pub mod Traces
mod Tests
use Roaring.{Bitmap}
use runv.Prelude.{ℕ, zero, suc, ◌+◌, ◌-◌, ◌%◌, ◌^◌, Bool, leb, if◌then◌else◌}

abbrev pub u32_mod : ℕ
u32_mod = 2 ^ 32

abbrev pub default_cid : ℕ
default_cid = 1024

abbrev pub default_bitmap_size : ℕ
default_bitmap_size = 16384

-- What `GetCid` returns: the cid, or the last cid tried beside an error.
pub data CidResult : Type 0 where
  cid : ℕ → CidResult
  no_more : ℕ → CidResult

module _ (m : Bitmap) where
  open m use {Carrier, empty, checked_add, remove}

  pub record Allocator : Type 0 where
    pub bitmap : Carrier
    pub start : ℕ
    pub size : ℕ
    pub pivot : ℕ

  pub new_allocator : Allocator
  new_allocator = record {
    bitmap = empty;
    start = default_cid;
    size = default_bitmap_size;
    pivot = default_cid;
  }

  -- The cid that round `i` of the loop tries.
  pub candidate : Allocator → ℕ → ℕ
  candidate a i =
      let c = (a.pivot + i) % u32_mod in
      if leb ((a.start + a.size) % u32_mod) c then (c + u32_mod - a.size) % u32_mod else c

  -- The loop of `GetCid` with `rounds` rounds left, the next one being round `i`; `last` is the
  -- variable `cid`.
  pub scan : (rounds i last : ℕ) → Allocator → Allocator × CidResult
  scan zero i last a = (a, no_more last)
  scan (suc rounds) i last a =
      let c = candidate a i in
      let (b, added) = checked_add a.bitmap c in
      let rest = scan rounds (i + 1) c (record a { bitmap = b }) in
      if added then (record a { bitmap = b; pivot = (c + 1) % u32_mod }, cid c) else rest

  pub get_cid : Allocator → Allocator × CidResult
  unfolding scan
  get_cid a = scan a.size 0 0 a

  pub mark_cid_inuse : Allocator → ℕ → Allocator × Bool
  mark_cid_inuse a c =
      let (b, success) = checked_add a.bitmap c in (record a { bitmap = b }, success)

  pub release_cid : Allocator → ℕ → Allocator
  release_cid a c = record a { bitmap = remove a.bitmap c }
