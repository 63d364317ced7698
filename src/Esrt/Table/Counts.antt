-- ===== src/Esrt/Table/Counts.antt =====
-- The counts of the table that esrt/mod.rs collects from the files of the kernel.
use framework_system.Base.{
  List, [], ◌∷◌, length, length-append, Maybe, Option, none, some, ok, err, panic, true, false, ◌≡◌,
  refl, subst, arith, >>=-ok, ◌>>=◌, if◌then◌else◌, Bool,
}
use framework_system.Esrt.Table.{
  EsrtTable, EsrtResourceEntry, SysfsEntry, push_entry, read_sysfs_entry, read_entries,
  esrt_from_sysfs, empty_table,
}

-- The counts are those of the entries, and the version is 1.
pub record IsCounted (t : EsrtTable) : Type 0 where
  pub count : t.resource_count ≡ length t.entries
  pub count_max : t.resource_count_max ≡ length t.entries
  pub version : t.resource_version ≡ 1

push_entry-IsCounted :
    (t : EsrtTable) (e : EsrtResourceEntry) → IsCounted t → IsCounted (push_entry t e)
push_entry-IsCounted t e h = record {
  count = omega (arith, h.count, length-append t.entries (e ∷ []));
  count_max = omega (arith, h.count_max, length-append t.entries (e ∷ []));
  version = h.version;
}

ok-IsCounted :
    (t next : EsrtTable) → ◌≡◌ {A = Maybe EsrtTable} (ok t) (ok next) → IsCounted t → IsCounted next
ok-IsCounted t next run h = let e : t ≡ next = cc in subst IsCounted e h

empty-IsCounted : IsCounted empty_table
empty-IsCounted = record { count = refl; count_max = refl; version = refl }

-- One round of the loop.
step-IsCounted :
    (t next : EsrtTable) (dir : Bool) (entry : Maybe EsrtResourceEntry)
    → IsCounted t
    → (if dir then (entry >>= λ e. ok (push_entry t e)) else ok t) ≡ ok next
    → IsCounted next
step-IsCounted t next false entry h run = ok-IsCounted t next run h
step-IsCounted t next true (ok e) h run =
    ok-IsCounted (push_entry t e) next run (push_entry-IsCounted t e h)
step-IsCounted t next true (err absent) h run = cc
step-IsCounted t next true panic h run = cc

read_entries-IsCounted :
    (t result : EsrtTable) (listing : List (Maybe SysfsEntry))
    → IsCounted t
    → read_entries t listing ≡ ok result
    → IsCounted result
unfolding read_entries
read_entries-IsCounted t result [] h run = ok-IsCounted t result run h
read_entries-IsCounted t result (err absent ∷ rest) h run = cc
read_entries-IsCounted t result (panic ∷ rest) h run = cc
read_entries-IsCounted t result (ok e ∷ rest) h run =
    let (next, one, more) =
      >>=-ok (if e.is_dir then (read_sysfs_entry e >>= λ entry. ok (push_entry t entry)) else ok t)
        (λ next. read_entries next rest) run in
    read_entries-IsCounted next result rest
      (step-IsCounted t next e.is_dir (read_sysfs_entry e) h one) more

-- Whatever the files of the kernel are, a table that `esrt_from_sysfs` returns has the counts of its
-- entries and the version 1.
pub esrt_from_sysfs-IsCounted :
    (dir : Option (Maybe (List (Maybe SysfsEntry)))) (t : EsrtTable)
    → esrt_from_sysfs dir ≡ ok t
    → IsCounted t
unfolding esrt_from_sysfs
esrt_from_sysfs-IsCounted none t run = ok-IsCounted empty_table t run empty-IsCounted
esrt_from_sysfs-IsCounted (some (ok listing)) t run =
    read_entries-IsCounted empty_table t listing empty-IsCounted run
esrt_from_sysfs-IsCounted (some (err absent)) t run = cc
esrt_from_sysfs-IsCounted (some panic) t run = cc
