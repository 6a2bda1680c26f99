-- ===== src/Filesystem/Detect/Grown.antt =====
-- A table to which the detection of filesystems has added entries.
use hyper.Base.{
  ℕ, ◌≡◌, Bool, true, false, ◌==◌, if◌then◌else◌, Option, none, some, List, [], ◌∷◌, ◌++◌, length,
  ap, ◌∙◌, Bool-cases, inl, inr, Run, ok, panic, stuck, ◌>>=◌,
}
use hyper.Cache.{BlockCache}
use hyper.Filesystem.Guid.{Guid, zero_guid}
use hyper.Filesystem.Table.{
  FsEntry, Filesystem, Disk, Table, slot_alloc, table_of, fst_add_raw_fs_entry,
  fst_add_mbr_fs_entry, fst_add_gpt_fs_entry,
}
use hyper.Filesystem.Table.Boot.{IsTable, adds-IsTable}
use hyper.Filesystem.Detect.{Detection, add_found}
use mathlib.Core.List.{append_assoc}

-- Of what a run returns, if it does.
abbrev pub OnReturn : {A : Type 0} → (A → Type 0) → Run A → Type 0
OnReturn P (ok a) = P a
OnReturn P panic = Unit
OnReturn P stuck = Unit

pub and_then :
    {A B : Type 0} (Q : A → Type 0) (P : B → Type 0) (m : Run A) (k : A → Run B)
    → OnReturn Q m
    → ((a : A) → Q a → OnReturn P (k a))
    → OnReturn P (do a ← m; k a)
and_then Q P (ok a) k h next = next a h
and_then Q P panic k h next = tt
and_then Q P stuck k h next = tt

pub any_return : {A : Type 0} (m : Run A) → OnReturn (λ _. Unit {0}) m
any_return (ok a) = tt
any_return panic = tt
any_return stuck = tt

-- The network's entry is where it was, and the entries of `before` are still the first ones.
abbrev pub Grown : List FsEntry → Table → Type 0
Grown before t = IsTable t × ((more : List FsEntry) × (t.entries ≡ before ++ more))

adds-Grown :
    (before : List FsEntry) (per_increment : ℕ) (allocates : Bool) (t : Table) (entry : FsEntry)
    → Grown before t
    → IsTable (table_of t (slot_alloc per_increment allocates t entry))
    → Grown before (table_of t (slot_alloc per_increment allocates t entry))
unfolding slot_alloc
adds-Grown before per_increment allocates t entry (old, (more, e)) h = (
  h,
  elim (Bool-cases (length t.entries == t.capacity)) [
    | inl full ↦ elim (Bool-cases allocates) [
      | inl granted ↦
          rw (full, granted)
            (
              more ++ entry ∷ [],
              ap (λ es. es ++ entry ∷ []) e ∙ append_assoc before more (entry ∷ []),
            )
      | inr refused ↦ rw (full, refused) (more, e)
    ]
    | inr room ↦
        rw room (
          more ++ entry ∷ [],
          ap (λ es. es ++ entry ∷ []) e ∙ append_assoc before more (entry ∷ []),
        )
  ],
)

module _ (before : List FsEntry) (per_increment : ℕ) (allocates : Bool) (t : Table) (d : Disk)
    (h : Grown before t) where
  pub raw-Grown :
      (fs : Filesystem) → Grown before (fst_add_raw_fs_entry per_increment allocates t d fs)
  unfolding fst_add_raw_fs_entry
  raw-Grown fs =
      adds-Grown before per_increment allocates t _ h
        (adds-IsTable per_increment allocates t d 0 zero_guid zero_guid fs h.0).0

  pub mbr-Grown :
      (n : ℕ) (fs : Filesystem)
      → Grown before (fst_add_mbr_fs_entry per_increment allocates t d n fs)
  unfolding fst_add_mbr_fs_entry
  mbr-Grown n fs =
      adds-Grown before per_increment allocates t _ h
        (adds-IsTable per_increment allocates t d n zero_guid zero_guid fs h.0).1

  pub gpt-Grown :
      (n : ℕ) (disk partition : Guid) (fs : Filesystem)
      → Grown before (fst_add_gpt_fs_entry per_increment allocates t d n disk partition fs)
  unfolding fst_add_gpt_fs_entry
  gpt-Grown n disk partition fs =
      adds-Grown before per_increment allocates t _ h
        (adds-IsTable per_increment allocates t d n disk partition fs h.0).2

abbrev pub HasTable : List FsEntry → Detection → Type 0
HasTable before st = Grown before st.table

abbrev pub HasTableToo : {B : Type 0} → List FsEntry → Detection × B → Type 0
HasTableToo before (st, b) = Grown before st.table

abbrev pub HasTableAfter : {B : Type 0} → List FsEntry → B × Detection → Type 0
HasTableAfter before (b, st) = Grown before st.table

pub add_found-HasTable :
    (before : List FsEntry) (add : Filesystem → Table) (t : Table)
    (found : BlockCache × Option Filesystem)
    → Grown before t
    → ((fs : Filesystem) → Grown before (add fs))
    → HasTable before (add_found add t found)
add_found-HasTable before add t (bc, none) h g = h
add_found-HasTable before add t (bc, some fs) h g = g fs

pub by_choice :
    {A : Type 0} (P : A → Type 0) (b : Bool) (m k : Run A)
    → OnReturn P m
    → OnReturn P k
    → OnReturn P (if b then m else k)
by_choice P true m k h g = h
by_choice P false m k h g = g
