-- ===== src/Filesystem/Detect/All.antt =====
-- fs_detect_all and fs_detect_pxe of loader/filesystem/filesystem.c.
use hyper.Base.{ℕ, Bool, true, false, if◌then◌else◌, Option, none, some, Run, ok, ◌>>=◌}
use hyper.Text.Ctype.{Bytes}
use hyper.Filesystem.Table.{Filesystem, Table, fst_add_pxe_fs_entry}
use hyper.Cache.{block_cache_refill}
use hyper.Filesystem.Detect.{Medium, Services, Detection, detect_entire}
use hyper.Filesystem.Detect.Mbr.{mbr_initialize}
use hyper.Filesystem.Detect.Gpt.{gpt_initialize}

module _ (sv : Services) (fuel : ℕ) (d : Medium) where
  -- the GPT, or else the MBR
  unfoldable pub detect_partitions : Detection → Run Detection
  unfolding gpt_initialize mbr_initialize
  detect_partitions st = do
    (st', is_gpt) ← gpt_initialize sv d st
    if is_gpt then ok st' else (do (st'', is_mbr) ← mbr_initialize sv d fuel st'; ok st'')

  unfoldable pub detect_cd : Detection → Run (Detection × Bool)
  unfolding detect_entire
  detect_cd st = detect_entire sv d st true

  unfoldable pub detect_raw : Detection → Run Detection
  unfolding detect_entire
  detect_raw st = do (st', found) ← detect_entire sv d st false; ok st'

  unfoldable pub fs_detect_all : Detection → Run Detection
  unfolding block_cache_refill detect_partitions detect_cd detect_raw
  fs_detect_all st = do
    (bc, filled) ← block_cache_refill sv.refill st.bc 0
    let st' : Detection = record st { bc = bc }
    after ← (if filled then detect_partitions st' else ok st')
    (after_cd, is_cd) ← detect_cd after
    if is_cd then ok after_cd else detect_raw after_cd

-- `server` is the address that the network services give, if they could be set up.
unfoldable pub fs_detect_pxe : Services → Filesystem → Option Bytes → Table → Run Table
unfolding fst_add_pxe_fs_entry
fs_detect_pxe sv g_pxe_fs none t = ok t
fs_detect_pxe sv g_pxe_fs (some addr) t =
    fst_add_pxe_fs_entry sv.per_increment (sv.allocates t) t g_pxe_fs addr
