-- ===== src/Filesystem/Reserve/Bytes.antt =====
-- The map of the data blocks, byte by byte: what one reservation changes.
use mathlib.Core.Path.{subst₂}
use native.Mathlib.Decide.{ℕ_discrete}
use osdesign.Base.{
  ℕ, ◌+◌, ◌-◌, ◌*◌, ◌/◌, ◌%◌, ◌≤◌, ◌<◌, ◌≡◌, sym, ◌∙◌, ◌≢◌, inl, inr, ◌&&◌, Option, some, List,
  arith, ◌==◌, if◌then◌else◌, set, length, get_elem?-set, length-set, lt-length_of_get_elem?,
}
use osdesign.Base.Command.{ok}
use osdesign.Filesystem.Disk.{Block, bytes, Disk}
use osdesign.Filesystem.Reserve.{reserve_free_data}
use osdesign.Filesystem.Reserve.Map.{byte_at, IsLaid, with_byte, Free, reserve_free_data-Reserved}

abbrev map_byte : Option Block → ℕ → ℕ
map_byte (some (bytes l)) j = byte_at l j
map_byte _ j = 1

-- The byte of the map for the data block `n`.
abbrev pub data_byte : Disk → ℕ → ℕ
data_byte d n = map_byte (d.blocks (5 + (n - 1089) / 512)) ((n - 1089) % 512)

module _ (d : Disk) (b j : ℕ) (l : List ℕ) (w : IsLaid d) (f : Free d b j l) where
  pub with_byte-IsLaid : IsLaid (with_byte d b (set l j 1))
  with_byte-IsLaid = record {
    reads = w.reads;
    writes = w.writes;
    top = ground (arith, f.above, w.top);
    map = λ c lo hi. at_block c lo hi;
  }
    where
      len : length l ≡ 512
      len = let (k, holds, size) = w.map b f.above f.below in ground (arith, f.holds, holds, size)

      at_block :
          (c : ℕ)
          → 5 ≤ c
          → c < 65
          → (k : List ℕ) × ((with_byte d b (set l j 1)).blocks c ≡ some (bytes k))
            × (length k ≡ 512)
      at_block c lo hi = elim (ℕ_discrete c b) [
        | yes same ↦ (set l j 1, ground arith, length-set l j 1 ∙ len)
        | no other ↦ let (k, holds, size) = w.map c lo hi in (k, ground (arith, holds), size)
      ]

  reserved : ℕ
  reserved = 512 * (b - 5) + j + 1089

  data_byte-before : data_byte d reserved ≡ 0
  unfolding reserved
  data_byte-before =
      let block : 5 + (512 * (b - 5) + j + 1089 - 1089) / 512 ≡ b =
        omega (arith, f.above, f.inside) in
      let byte : (512 * (b - 5) + j + 1089 - 1089) % 512 ≡ j = omega (arith, f.above, f.inside) in
      rw (block, byte, f.holds) (ground (arith, f.unused))

  map_byte-after :
      (c i : ℕ)
      → map_byte ((with_byte d b (set l j 1)).blocks c) i
        ≡ (if (c == b) && (i == j) then 1 else map_byte (d.blocks c) i)
  map_byte-after c i = elim (ℕ_discrete c b) [
    | yes same ↦
        rw (same, f.holds)
          (ground (arith, get_elem?-set l j i 1, lt-length_of_get_elem? l j 0 f.unused, f.unused))
    | no other ↦ ground arith
  ]

  data_byte-after :
      (m : ℕ)
      → 1089 ≤ m
      → data_byte (with_byte d b (set l j 1)) m ≡ (if m == reserved then 1 else data_byte d m)
  unfolding reserved
  data_byte-after m lo = elim (ℕ_discrete m (512 * (b - 5) + j + 1089)) [
    | yes same ↦
        let block : 5 + (m - 1089) / 512 ≡ b = omega (arith, f.above, f.inside) in
        let byte : (m - 1089) % 512 ≡ j = omega (arith, f.above, f.inside) in
        map_byte-after _ _
        ∙ same_case (5 + (m - 1089) / 512) ((m - 1089) % 512) _ m _ block byte same
    | no other ↦
        map_byte-after _ _
        ∙ other_case (5 + (m - 1089) / 512) ((m - 1089) % 512) _ m _
            (λ p q. other (omega (arith, f.above))) other
  ]
    where
      same_case :
          (c i x m' r : ℕ)
          → c ≡ b
          → i ≡ j
          → m' ≡ r
          → (if (c == b) && (i == j) then 1 else x) ≡ (if m' == r then 1 else x)
      same_case c i x m' r p q e = ground arith

      other_case :
          (c i x m' r : ℕ)
          → (c ≡ b → i ≡ j → ⊥)
          → m' ≢ r
          → (if (c == b) && (i == j) then 1 else x) ≡ (if m' == r then 1 else x)
      other_case c i x m' r apart ne = ground arith

-- A reservation takes a block whose byte was 0, sets that byte and keeps every other, and leaves
-- the disk in the same layout. The reads and writes succeed and the maps are laid out as `sfs_init` does.
pub reserve_free_data-data_byte :
    (rounds n : ℕ) (d d' : Disk)
    → IsLaid d
    → 60 < rounds
    → reserve_free_data rounds d ≡ ok (some n) d'
    → IsLaid d'
      × (data_byte d n ≡ 0)
      × ((m : ℕ) → 1089 ≤ m → data_byte d' m ≡ (if m == n then 1 else data_byte d m))
unfolding reserved
reserve_free_data-data_byte rounds n d d' w fuel e =
    elim (reserve_free_data-Reserved rounds d w fuel) [
      | inl (r, _) ↦ cc (sym e ∙ r)
      | inr (b, j, l, f, _, r) ↦
          let number : 512 * (b - 5) + j + 1089 ≡ n = ground (arith, sym e ∙ r) in
          let disk : with_byte d b (set l j 1) ≡ d' = out_disk _ _ _ _ (sym r ∙ e) in
          subst₂
            (λ x y.
              IsLaid y
              × (data_byte d x ≡ 0)
              × ((m : ℕ) → 1089 ≤ m → data_byte y m ≡ (if m == x then 1 else data_byte d m)))
            number disk
            (
              with_byte-IsLaid d b j l w f,
              data_byte-before d b j l w f,
              data_byte-after d b j l w f,
            )
    ]
  where
    out_disk : (a : Option ℕ) (x : Disk) (b : Option ℕ) (y : Disk) → ok a x ≡ ok b y → x ≡ y
    out_disk a x b y z = cc
