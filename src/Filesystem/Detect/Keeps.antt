-- ===== src/Filesystem/Detect/Keeps.antt =====
-- What the detection of filesystems keeps of the table.
use hyper.Base.{ℕ, List, Run, ◌>>=◌}
use hyper.Filesystem.Guid.{Guid}
use hyper.Filesystem.Table.{FsEntry}
use hyper.Filesystem.Detect.{Medium, Services, Detection}
use hyper.Filesystem.Detect.Grown.{OnReturn, HasTable}

module _ (sv : Services) (d : Medium) (before : List FsEntry) where
  abbrev Keeps : (ℕ → ℕ → Detection → Run Detection) → Type 0
  Keeps chain =
      (base_index sector_offset : ℕ) (st : Detection)
      → HasTable before st
      → OnReturn (HasTable before) (chain base_index sector_offset st)
