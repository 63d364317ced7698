-- ===== src/Esrt/Table/Memory.antt =====
-- The table that esrt/mod.rs reads from memory, and the one it collects from files.
use framework_system.Base.{
  ℕ, zero, suc, ◌+◌, ◌*◌, ◌/◌, ◌^◌, ◌<◌, List, [], ◌∷◌, ◌++◌, length, take, drop, All, Bool, true,
  ◌≡◌, refl, sym, ap, ap₂, ◌∙◌, ok, Maybe, leb, le→leb, ◌==◌, ==_iff, arith, length-append,
  take-append, drop-append, drop-drop, if_same,
}
use native.Mathlib.Nat.{pow-suc}
use framework_system.Bytes.{to_le, from_le, field, field-drop}
use framework_system.Guid.{to_bytes, from_bytes}
use framework_system.Guid.Bytes.{IsGuid, from_bytes-to_bytes}
use framework_system.Esrt.Table.{
  EsrtResourceEntry, EsrtTable, read_entry, entries_from, esrt_from_buf,
}

from_le-to_le : (n x : ℕ) → x < 256 ^ n → from_le (to_le n x) ≡ x
unfolding from_le to_le
from_le-to_le zero x h = omega arith
from_le-to_le (suc n) x h =
    let fits : x / 256 < 256 ^ n = omega (arith, pow-suc 256 n) in
    rw (from_le-to_le n (x / 256) fits) (omega arith)

-- The ranges of the fields.
pub record IsEntry (e : EsrtResourceEntry) : Type 0 where
  pub class : IsGuid e.fw_class
  pub type_fits : e.fw_type < 2 ^ 32
  pub version_fits : e.fw_version < 2 ^ 32
  pub lowest_fits : e.lowest_supported_fw_version < 2 ^ 32
  pub flags_fit : e.capsule_flags < 2 ^ 32
  pub attempt_version_fits : e.last_attempt_version < 2 ^ 32
  pub attempt_status_fits : e.last_attempt_status < 2 ^ 32

abbrev numbers : EsrtResourceEntry → List ℕ → List ℕ
numbers e rest =
    to_le 4 e.fw_type
    ++ (to_le 4 e.fw_version
        ++ (to_le 4 e.lowest_supported_fw_version
            ++ (to_le 4 e.capsule_flags
                ++ (to_le 4 e.last_attempt_version ++ (to_le 4 e.last_attempt_status ++ rest)))))

-- The entry of the UEFI specification, with more bytes behind it.
abbrev pub entry_bytes : EsrtResourceEntry → List ℕ → List ℕ
entry_bytes e rest = to_bytes e.fw_class ++ numbers e rest

abbrev pub entries_bytes : List EsrtResourceEntry → List ℕ → List ℕ
entries_bytes [] rest = rest
entries_bytes (e ∷ es) rest = entry_bytes e (entries_bytes es rest)

module _ (e : EsrtResourceEntry) (h : IsEntry e) (rest : List ℕ) where
  length-to_bytes : length (to_bytes e.fw_class) ≡ 16
  unfolding to_bytes to_le
  length-to_bytes = omega (arith, h.class.d_length)

  take_class : take 16 (entry_bytes e rest) ≡ to_bytes e.fw_class
  take_class = rw (sym length-to_bytes) (take-append (to_bytes e.fw_class) (numbers e rest))

  drop_class : drop 16 (entry_bytes e rest) ≡ numbers e rest
  drop_class = rw (sym length-to_bytes) (drop-append (to_bytes e.fw_class) (numbers e rest))

  drop_entry : drop 40 (entry_bytes e rest) ≡ rest
  unfolding to_le
  drop_entry = sym (drop-drop 24 16 (entry_bytes e rest)) ∙ ap (drop 24) drop_class

  number :
      (o x : ℕ)
      → x < 2 ^ 32
      → field (numbers e rest) o 4 ≡ from_le (to_le 4 x)
      → field (entry_bytes e rest) (16 + o) 4 ≡ x
  number o x fits place =
      sym (field-drop (entry_bytes e rest) 16 o 4)
      ∙ ap (λ (t : List ℕ). field t o 4) drop_class
      ∙ place
      ∙ from_le-to_le 4 x fits

  read_entry-entry_bytes : read_entry (entry_bytes e rest) ≡ e
  unfolding read_entry to_le field
  read_entry-entry_bytes = λ i. record {
    fw_class = (ap from_bytes take_class ∙ from_bytes-to_bytes e.fw_class h.class) i;
    fw_type = number 0 e.fw_type h.type_fits refl i;
    fw_version = number 4 e.fw_version h.version_fits refl i;
    lowest_supported_fw_version = number 8 e.lowest_supported_fw_version h.lowest_fits refl i;
    capsule_flags = number 12 e.capsule_flags h.flags_fit refl i;
    last_attempt_version = number 16 e.last_attempt_version h.attempt_version_fits refl i;
    last_attempt_status = number 20 e.last_attempt_status h.attempt_status_fits refl i;
  }

entries_from-entries_bytes :
    (es : List EsrtResourceEntry) (rest : List ℕ)
    → All IsEntry es
    → entries_from (length es) (entries_bytes es rest) ≡ es
unfolding entries_from
entries_from-entries_bytes [] rest h = refl
entries_from-entries_bytes (e ∷ es) rest (he, hes) =
    let tail = entries_bytes es rest in
    ap₂ ◌∷◌ (read_entry-entry_bytes e he tail) (
      ap (entries_from (length es)) (drop_entry e he tail) ∙ entries_from-entries_bytes es rest hes)

length-entries_bytes :
    (es : List EsrtResourceEntry) (rest : List ℕ)
    → All IsEntry es
    → length (entries_bytes es rest) ≡ length es * 40 + length rest
unfolding to_le
length-entries_bytes [] rest h = omega arith
length-entries_bytes (e ∷ es) rest (he, hes) =
    let tail = entries_bytes es rest in
    omega (
      arith,
      length-append (to_bytes e.fw_class) (numbers e tail),
      length-to_bytes e he tail,
      length-entries_bytes es rest hes,
    )

-- A table as it lies in memory, with more bytes behind it.
abbrev pub table_bytes : EsrtTable → List ℕ → List ℕ
table_bytes t rest =
    to_le 4 t.resource_count
    ++ (to_le 4 t.resource_count_max
        ++ (to_le 8 t.resource_version ++ entries_bytes t.entries rest))

-- The count is that of the entries, and the version the one that the code expects.
pub record IsTable (t : EsrtTable) : Type 0 where
  pub counted : length t.entries ≡ t.resource_count
  pub count_fits : t.resource_count < 2 ^ 32
  pub max_fits : t.resource_count_max < 2 ^ 32
  pub version : t.resource_version ≡ 1
  pub entries_fit : All IsEntry t.entries

-- `esrt_from_buf` reads a table back from its bytes in memory, whatever lies behind them, in builds
-- with and without debug assertions.
pub esrt_from_buf-table_bytes :
    (debug : Bool) (t : EsrtTable) (rest : List ℕ)
    → IsTable t
    → esrt_from_buf debug (table_bytes t rest) ≡ ok t
unfolding esrt_from_buf field to_le
esrt_from_buf-table_bytes debug t rest h =
    let count : from_le (to_le 4 t.resource_count) ≡ t.resource_count =
      from_le-to_le 4 t.resource_count h.count_fits in
    let max : from_le (to_le 4 t.resource_count_max) ≡ t.resource_count_max =
      from_le-to_le 4 t.resource_count_max h.max_fits in
    let version : from_le (to_le 8 t.resource_version) ≡ t.resource_version =
      from_le-to_le 8 t.resource_version (omega (arith, h.version)) in
    let size = length-entries_bytes t.entries rest h.entries_fit in
    let enough : leb (16 + t.resource_count * 40) (length (table_bytes t rest)) ≡ true =
      le→leb _ _ (omega (arith, h.counted, size)) in
    let expected : (t.resource_version == 1) ≡ true = (==_iff t.resource_version 1).1 h.version in
    let entries : entries_from t.resource_count (drop 16 (table_bytes t rest)) ≡ t.entries =
      rw (sym h.counted) (entries_from-entries_bytes t.entries rest h.entries_fit) in
    rw
      (count, max, version, enough, expected, entries, if_same {A = Maybe (Unit {0})} debug (ok tt))
      refl
