-- ===== src/Memory/Types.antt =====
-- The memory types that the boot protocol knows: known_standard_mask and map_is_dirty of
-- loader/memory_services.c, and the type that an entry is reported with.
use Prim.Native.Nat.{bit_and, bit_or}
use hyper.Base.{
  inl, inr, ℕ, ◌^◌, ◌≤◌, ◌≡◌, ◌⊎◌, Bool, true, not, ltb, leb, ◌==◌, if◌then◌else◌, List, [], ◌∷◌,
  Run, ok, panic, stuck, bug_on, ◌>>◌, ◌>>=◌, arith, Returns,
}
use hyper.Memory.Entry.{
  memory_type_invalid, memory_type_free, memory_type_reserved, memory_type_max,
  memory_type_loader_reclaimable, memory_type_proto_specific_base,
}

-- The file's static variables.
pub record MapState : Type 0 where
  pub known_standard_mask : ℕ
  pub map_is_dirty : Bool

-- The values before main.
abbrev pub initial : MapState
initial = record { known_standard_mask = 0xFFFF_FFFF; map_is_dirty = true }

-- 1u << type, for a type below 32
abbrev pub make_known_mask : ℕ → ℕ
make_known_mask type = 2 ^ type

abbrev pub knows_loader_reclaim : ℕ
knows_loader_reclaim = make_known_mask 31

unfoldable pub mask_is_set : ℕ → ℕ → Bool
mask_is_set known type_mask = bit_and known type_mask == type_mask

-- The loop of mm_declare_known_mm_types over an array that MEMORY_TYPE_INVALID ends. An array with
-- no end is read past its bounds, of which the model says nothing (`stuck`).
unfoldable pub declared_mask : List ℕ → ℕ → Run ℕ
declared_mask [] new_mask = stuck
declared_mask (type ∷ types) new_mask =
    let reclaim = declared_mask types (bit_or new_mask knows_loader_reclaim) in
    let further = declared_mask types (bit_or new_mask (make_known_mask type)) in
    if type == memory_type_invalid
    then ok new_mask
    else if type == memory_type_loader_reclaimable
    then reclaim
    else if ltb memory_type_max type
    then panic
    else further

unfoldable pub mm_declare_known_mm_types : MapState → List ℕ → Run MapState
unfolding declared_mask mask_is_set
mm_declare_known_mm_types s types = do
  new_mask ← declared_mask types 0
  let s' =
      if new_mask == s.known_standard_mask
      then s
      else record s { known_standard_mask = new_mask; map_is_dirty = true }
  bug_on (
      not (
        mask_is_set s'.known_standard_mask
          (bit_or (make_known_mask memory_type_free) (make_known_mask memory_type_reserved))))
  ok s'

-- The type that an entry of type `type` is reported with under the mask `known`.
unfoldable pub mme_resolve_type : ℕ → ℕ → Run ℕ
mme_resolve_type known type =
    if leb memory_type_proto_specific_base type
    then ok type
    else if type == memory_type_loader_reclaimable
    then ok (if mask_is_set known knows_loader_reclaim then type else memory_type_free)
    else if ltb memory_type_max type
    then panic
    else ok (if mask_is_set known (make_known_mask type) then type else memory_type_reserved)

-- A type that the firmware map, the allocator or the protocol may put into an entry.
abbrev pub IsKnown : ℕ → Type 0
IsKnown type =
    (type ≤ memory_type_max)
    ⊎ ((type ≡ memory_type_loader_reclaimable) ⊎ (memory_type_proto_specific_base ≤ type))

-- What mm_declare_known_mm_types insists on.
pub record KnowsBasics (known : ℕ) : Type 0 where
  pub free : mask_is_set known (make_known_mask memory_type_free) ≡ true
  pub reserved : mask_is_set known (make_known_mask memory_type_reserved) ≡ true

pub mme_resolve_type_idempotent :
    (known type : ℕ)
    → KnowsBasics known
    → IsKnown type
    → Returns (λ t. IsKnown t × (mme_resolve_type known t ≡ ok t)) (mme_resolve_type known type)
unfolding mme_resolve_type
mme_resolve_type_idempotent known type basics (inl standard) = ground (arith, basics.reserved)
mme_resolve_type_idempotent known type basics (inr (inl reclaim)) = ground (arith, basics.free)
mme_resolve_type_idempotent known type basics (inr (inr proto)) = ground arith
