-- ===== src/Filesystem/Bulk/Delivers.antt =====
-- What a bulk read of loader/filesystem/bulk_read.c delivers.
use hyper.Base.{ℕ, ◌<◌, ◌≡◌, ◌⊎◌, Option, none, some, length, u64_mod}
use hyper.Text.Ctype.{Bytes}
use hyper.Filesystem.Bulk.Ranges.{IsDisk, IsLayout, Fails}
use hyper.Filesystem.Bulk.{BlockRange, Volume}

module _ (get_range : ℕ → ℕ → Option BlockRange) (ds_read ds_read_blocks : ℕ → ℕ → Option Bytes)
    (v : Volume) (disk contents : Bytes) (is_disk : IsDisk ds_read ds_read_blocks disk v.disk_shift)
    (layout : IsLayout get_range v disk contents) (addressable : length disk < u64_mod) where
  -- One of the three services failed.
  abbrev pub SomeFails : Type 0
  SomeFails = Fails get_range ⊎ (Fails ds_read ⊎ Fails ds_read_blocks)

  -- The bytes, or a failure of a service.
  abbrev pub Yields : Bytes → Option Bytes → Type 0
  Yields target r = (r ≡ some target) ⊎ ((r ≡ none) × SomeFails)
